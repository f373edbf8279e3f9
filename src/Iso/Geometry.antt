-- ===== src/Iso/Geometry.antt =====
-- Which image sizes have a geometry.
use stm32_usbfloppy_tracer.Base.{
  ==→eq, ==→ne, Bool, Bool-cases, List, Outcome, [], done, eq→==, fail, false, inl, inr, panic,
  refl, subst, true, ℕ, ◌*◌, ◌==◌, ◌||◌, ◌∷◌, ◌≡◌, ◌≢◌, ◌⊎◌,
}
use stm32_usbfloppy_tracer.Iso.{
  calculate_floppy_geometry, cylinders_loop, or_else, possible_cylinder_counts,
  possible_sector_counts, sectors_loop,
}

abbrev pub contains : ℕ → List ℕ → Bool
contains x [] = false
contains x (y ∷ ys) = (x == y) || contains x ys

abbrev pub image_size : ℕ → ℕ → ℕ
image_size cylinders sectors = cylinders * 2 * 512 * sectors

-- What a guess says of the size, for the cylinder counts and sector counts that were tried.
abbrev Guess : ℕ → List ℕ → List ℕ → Outcome (ℕ × ℕ) → Type 0
Guess n cs ss (done (c, s)) = (n ≡ image_size c s) × (contains c cs ≡ true) × (contains s ss ≡ true)
Guess n cs ss fail = (c s : ℕ) → contains c cs ≡ true → contains s ss ≡ true → n ≢ image_size c s
Guess n cs ss panic = true ≡ false

||-true : (a b : Bool) → (a || b) ≡ true → (a ≡ true) ⊎ (b ≡ true)
||-true true b h = inl refl
||-true false b h = inr h

or_true : (a b : Bool) → b ≡ true → (a || b) ≡ true
or_true true b h = refl
or_true false b h = h

self_or : (x : ℕ) (b : Bool) → ((x == x) || b) ≡ true
self_or x b = rw (eq→== x x refl) refl

weaken_cylinder :
    (n s c : ℕ) (cs : List ℕ) (r : Outcome (ℕ × ℕ))
    → n ≢ image_size c s
    → Guess n cs (s ∷ []) r
    → Guess n (c ∷ cs) (s ∷ []) r
weaken_cylinder n s c cs (done (c', s')) h (e, hc, hs) = (e, or_true (c' == c) _ hc, hs)
weaken_cylinder n s c cs fail h g = λ c' s' hc hs. elim (||-true (c' == c) _ hc) [
  | inl e ↦ elim (||-true (s' == s) false hs) [
    | inl e' ↦ (let i = ==→eq c' c e in let j = ==→eq s' s e' in rw (i, j) h)
    | inr e' ↦ cc
  ]
  | inr m ↦ g c' s' m hs
]
weaken_cylinder n s c cs panic h g = g

cylinders_loop-Guess : (n s : ℕ) (cs : List ℕ) → Guess n cs (s ∷ []) (cylinders_loop n s cs)
unfolding cylinders_loop
cylinders_loop-Guess n s [] = λ c s' hc hs e. cc
cylinders_loop-Guess n s (c ∷ cs) = elim (Bool-cases (n == image_size c s)) [
  | inl e ↦ rw e (==→eq n (image_size c s) e, self_or c _, self_or s false)
  | inr e ↦ rw e (
      weaken_cylinder n s c cs (cylinders_loop n s cs) (==→ne n (image_size c s) e)
        (cylinders_loop-Guess n s cs))
]

or_else-Guess :
    (n s : ℕ) (cs ss : List ℕ) (a b : Outcome (ℕ × ℕ))
    → Guess n cs (s ∷ []) a
    → Guess n cs ss b
    → Guess n cs (s ∷ ss) (or_else a b)
or_else-Guess n s cs ss (done (c', s')) b (e, hc, hs) h =
    (e, hc, elim (||-true (s' == s) false hs) [ inl e' ↦ rw e' refl | inr e' ↦ cc ])
or_else-Guess n s cs ss fail (done (c', s')) g (e, hc, hs) = (e, hc, or_true (s' == s) _ hs)
or_else-Guess n s cs ss fail fail g h = λ c' s' hc hs. elim (||-true (s' == s) _ hs) [
  | inl e ↦ g c' s' hc (rw e refl)
  | inr m ↦ h c' s' hc m
]
or_else-Guess n s cs ss fail panic g h = h
or_else-Guess n s cs ss panic b g h = g

sectors_loop-Guess : (n : ℕ) (ss : List ℕ) → Guess n possible_cylinder_counts ss (sectors_loop n ss)
unfolding sectors_loop
sectors_loop-Guess n [] = λ c s hc hs e. cc
sectors_loop-Guess n (s ∷ ss) =
    or_else-Guess n s possible_cylinder_counts ss (cylinders_loop n s possible_cylinder_counts)
      (sectors_loop n ss) (cylinders_loop-Guess n s possible_cylinder_counts)
      (sectors_loop-Guess n ss)

geometry-Guess :
    (number_bytes : ℕ)
    → Guess number_bytes possible_cylinder_counts possible_sector_counts
        (calculate_floppy_geometry number_bytes)
geometry-Guess number_bytes =
    unfold calculate_floppy_geometry in sectors_loop-Guess number_bytes possible_sector_counts

-- A geometry of possible counts that has the size of an image.
abbrev pub IsGeometryOf : ℕ → ℕ × ℕ → Type 0
IsGeometryOf n (c, s) =
    (n ≡ image_size c s)
    × (contains c possible_cylinder_counts ≡ true)
    × (contains s possible_sector_counts ≡ true)

-- Any geometry that calculate_floppy_geometry returns has possible counts of cylinders and sectors,
-- and the size of the image.
calculate_floppy_geometry_sound :
    (number_bytes : ℕ) (g : ℕ × ℕ)
    → calculate_floppy_geometry number_bytes ≡ done g
    → IsGeometryOf number_bytes g
calculate_floppy_geometry_sound number_bytes (c, s) h =
    subst (Guess number_bytes possible_cylinder_counts possible_sector_counts) h
      (geometry-Guess number_bytes)

-- For an image of the size of any possible counts of cylinders and sectors,
-- calculate_floppy_geometry returns a geometry, of possible counts and of that size.
pub calculate_floppy_geometry_complete :
    (c s : ℕ)
    → contains c possible_cylinder_counts ≡ true
    → contains s possible_sector_counts ≡ true
    → (g : ℕ × ℕ) × (calculate_floppy_geometry (image_size c s) ≡ done g)
      × IsGeometryOf (image_size c s) g
calculate_floppy_geometry_complete c s hc hs =
    found (calculate_floppy_geometry (image_size c s)) (geometry-Guess (image_size c s))
  where
    found :
        (r : Outcome (ℕ × ℕ))
        → Guess (image_size c s) possible_cylinder_counts possible_sector_counts r
        → (g : ℕ × ℕ) × (r ≡ done g) × IsGeometryOf (image_size c s) g
    found (done (c', s')) h = ((c', s'), refl, h)
    found fail h = absurd (h c s hc hs refl)
    found panic h = cc
