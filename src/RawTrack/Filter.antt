-- ===== src/RawTrack/Filter.antt =====
-- What a track filter keeps.
use stm32_usbfloppy_tracer.Base.{
  ==→eq, Bool, Bool-cases, List, Option, [], eq→==, false, inl, inr, leb, leb→le, le→leb, none,
  refl, some, sym, true, zero, ℕ, ◌&&◌, ◌∙◌, ◌∷◌, ◌≡◌, ◌≤◌,
}
use stm32_usbfloppy_tracer.RawTrack.{
  RawImage, RawTrack, TrackFilter, filter_tracks, holds, retain, selects,
}

abbrev pub Bound : Option ℕ → (ℕ → Type 0) → Type 0
Bound none P = zero ≡ zero
Bound (some x) P = P x

-- A track inside the bounds that the filter has.
pub record InRange (filter : TrackFilter) (t : RawTrack) : Type 0 where
  from_start : Bound filter.cyl_start (λ s. s ≤ t.cylinder)
  to_end : Bound filter.cyl_end (λ e. t.cylinder ≤ e)
  on_head : Bound filter.head (λ h. t.head ≡ h)

-- The second list is the first without the tracks that are out of range.
pub data Kept (filter : TrackFilter) : List RawTrack → List RawTrack → Type 0 where
  nothing : Kept filter [] []
  keeps :
      {ts rs : List RawTrack} (t : RawTrack)
      → InRange filter t
      → Kept filter ts rs
      → Kept filter (t ∷ ts) (t ∷ rs)
  drops :
      {ts rs : List RawTrack} (t : RawTrack)
      → ¬ InRange filter t
      → Kept filter ts rs
      → Kept filter (t ∷ ts) rs

holds-Bound :
    (o : Option ℕ) (test : ℕ → Bool) (P : ℕ → Type 0)
    → ((x : ℕ) → test x ≡ true → P x)
    → holds o test ≡ true
    → Bound o P
holds-Bound none test P f h = refl
holds-Bound (some x) test P f h = f x h

Bound-holds :
    (o : Option ℕ) (test : ℕ → Bool) (P : ℕ → Type 0)
    → ((x : ℕ) → P x → test x ≡ true)
    → Bound o P
    → holds o test ≡ true
Bound-holds none test P f h = refl
Bound-holds (some x) test P f h = f x h

&&-true : (a b : Bool) → (a && b) ≡ true → (a ≡ true) × (b ≡ true)
&&-true true b h = (refl, h)
&&-true false b h = cc

selects-InRange : (filter : TrackFilter) (t : RawTrack) → selects filter t ≡ true → InRange filter t
unfolding selects
selects-InRange filter t h =
    let a = &&-true (holds filter.cyl_start (λ s. leb s t.cylinder)) _ h in
    let b = &&-true (holds filter.cyl_end (λ e. leb t.cylinder e)) _ a.1 in
    record {
      from_start = holds-Bound filter.cyl_start _ _ (λ s e. leb→le s t.cylinder e) a.0;
      to_end = holds-Bound filter.cyl_end _ _ (λ s e. leb→le t.cylinder s e) b.0;
      on_head = holds-Bound filter.head _ _ (λ s e. ==→eq t.head s e) b.1;
    }

InRange-selects : (filter : TrackFilter) (t : RawTrack) → InRange filter t → selects filter t ≡ true
unfolding selects
InRange-selects filter t r =
    rw
      (Bound-holds filter.cyl_start (λ s. leb s t.cylinder) _ (λ s e. le→leb s t.cylinder e)
        r.from_start)
      (rw
        (Bound-holds filter.cyl_end (λ s. leb t.cylinder s) _ (λ s e. le→leb t.cylinder s e)
          r.to_end)
        (Bound-holds filter.head _ _ (λ s e. eq→== t.head s e) r.on_head))

out : ¬ (true ≡ false)
out h = cc

retain-Kept :
    (filter : TrackFilter) (ts : List RawTrack) → Kept filter ts (retain (selects filter) ts)
unfolding retain
retain-Kept filter [] = nothing
retain-Kept filter (t ∷ ts) = elim (Bool-cases (selects filter t)) [
  | inl e ↦ rw e (keeps t (selects-InRange filter t e) (retain-Kept filter ts))
  | inr e ↦ rw e (drops t (λ r. out (sym (InRange-selects filter t r) ∙ e)) (retain-Kept filter ts))
]

-- filter_tracks keeps, in their order, the tracks whose cylinder and head are within every bound that the
-- filter has, and no others.
pub filter_tracks-Kept :
    (image : RawImage) (filter : TrackFilter)
    → Kept filter image.tracks (filter_tracks image filter).tracks
filter_tracks-Kept image filter = unfold filter_tracks in retain-Kept filter image.tracks
