-- ===== src/Core/Topology/Entry.antt =====
-- src/core/topology.cpp, entryCoordinate, hitEdge and mapEntryPoint.
use mksync.Prelude.{
  ◌+◌, ◌*◌, ◌≤◌, ◌<◌, ◌≡◌, ◌⊎◌, inl, inr, ℕ, ℤ, pos, pos_part, neg_part, ◌≤ℤ◌, ◌<ℤ◌, IsInt32, true,
  false, Bool-cases, arith, sub32, sub32_one, wrap32_self, wrap32, ◌-ℤ◌, -ℤ_parts, clamp, leb_ℤ,
  int_laws, eq_of_parts,
}
use native.Mathlib.Nat.{le-div_iff_mul-le, div-mul-le_self, div-eq_of_lt-le, div-eq_of_lt}
use mksync.Core.Grid.{position_key, screen_key}
use mksync.Core.Topology.{entry_coordinate, lround_ratio}

-- A pixel of a span of `extent` pixels.
abbrev pub IsPixel : ℤ → ℤ → Type 0
IsPixel a extent = (pos 0 ≤ℤ a) × (a <ℤ extent)

pub clamp-IsPixel :
    (v extent : ℤ)
    → pos 0 <ℤ extent
    → IsInt32 extent
    → IsPixel (clamp v (pos 0) (sub32 extent (pos 1))) extent
clamp-IsPixel v extent p t = rw (sub32_one extent p t) (ground (arith, -ℤ_parts extent (pos 1)))

-- The entry coordinate is a pixel of the target, whatever the source coordinate.
pub entry_coordinate-IsPixel :
    (source source_extent target_extent : ℤ)
    → pos 0 <ℤ target_extent
    → IsInt32 target_extent
    → IsPixel (entry_coordinate source source_extent target_extent) target_extent
unfolding entry_coordinate
entry_coordinate-IsPixel source n m p t =
    let e =
      clamp-IsPixel
        (wrap32 (
          pos (
            lround_ratio
              (pos_part (clamp source (pos 0) (sub32 n (pos 1))) * pos_part (sub32 m (pos 1)))
              (pos_part (sub32 n (pos 1))))))
        m p t in
    elim (Bool-cases (leb_ℤ n (pos 1))) [
      | inl h ↦ rw h (omega arith)
      | inr h ↦ elim (Bool-cases (leb_ℤ m (pos 1))) [
        | inl k ↦ rw (h, k) (omega arith)
        | inr k ↦ rw (h, k) e
      ]
    ]

lround_mono : (a b s : ℕ) → a ≤ b → 0 < s → lround_ratio a s ≤ lround_ratio b s
lround_mono a b s h p =
    (le-div_iff_mul-le {k = 2 * s} (omega arith)).1
      (omega (arith, div-mul-le_self (2 * a + s) (2 * s)))

lround_full : (s t : ℕ) → 0 < s → lround_ratio (s * t) s ≡ t
lround_full s t h = div-eq_of_lt-le (2 * s) (omega arith) (omega arith)

-- The pixel of a source that the formula reads.
abbrev source_pixel : ℤ → ℤ → ℕ
source_pixel source extent = pos_part (clamp source (pos 0) (extent -ℤ pos 1))

clamp_nonneg : (q : ℕ) (t : ℤ) → pos q ≤ℤ t → IsInt32 t → clamp (wrap32 (pos q)) (pos 0) t ≡ pos q
clamp_nonneg q t h k = rw (wrap32_self (pos q) (omega arith)) (ground arith)

not_trivial : (n : ℤ) → pos 1 <ℤ n → leb_ℤ n (pos 1) ≡ false
not_trivial n h = ground arith

span_parts :
    (n : ℤ) → pos 0 <ℤ n → (neg_part (n -ℤ pos 1) ≡ 0) × (pos_part (n -ℤ pos 1) + 1 ≡ pos_part n)
unfolding ◌-ℤ◌
span_parts n h = ground arith

span-pos : (n : ℤ) → pos 1 <ℤ n → 0 < pos_part (n -ℤ pos 1)
unfolding ◌-ℤ◌
span-pos n h = ground arith

source_pixel-le : (source n : ℤ) → pos 1 <ℤ n → source_pixel source n ≤ pos_part (n -ℤ pos 1)
source_pixel-le source n h = ground (arith, -ℤ_parts n (pos 1))

scaled-le : (c s t : ℕ) → c ≤ s → 0 < s → lround_ratio (c * t) s ≤ t
scaled-le c s t h p =
    let b : c * t ≤ s * t = grind arith in
    omega (arith, lround_mono (c * t) (s * t) s b p, lround_full s t p)

-- Away from the trivial extents no clamp or cast of the result has an effect.
entry_coordinate_exact :
    (source n m : ℤ)
    → pos 1 <ℤ n
    → IsInt32 n
    → pos 1 <ℤ m
    → IsInt32 m
    → entry_coordinate source n m
      ≡ pos (lround_ratio (source_pixel source n * pos_part (m -ℤ pos 1)) (pos_part (n -ℤ pos 1)))
unfolding entry_coordinate
entry_coordinate_exact source n m hn tn hm tm =
    rw
      (
        not_trivial n hn,
        not_trivial m hm,
        sub32_one n (omega arith) tn,
        sub32_one m (omega arith) tm,
      )
      (clamp_nonneg _ (m -ℤ pos 1)
        (omega (
          arith,
          span_parts n (omega arith),
          span_parts m (omega arith),
          scaled-le (source_pixel source n) (pos_part (n -ℤ pos 1)) (pos_part (m -ℤ pos 1))
              (source_pixel-le source n hn) (span-pos n hn),
        ))
        (omega int_laws))

entry_coordinate_trivial :
    (source n m : ℤ)
    → (leb_ℤ n (pos 1) ≡ true) ⊎ (leb_ℤ m (pos 1) ≡ true)
    → entry_coordinate source n m ≡ pos 0
unfolding entry_coordinate
entry_coordinate_trivial source n m (inl h) = rw h
entry_coordinate_trivial source n m (inr h) = elim (Bool-cases (leb_ℤ n (pos 1))) [
  | inl k ↦ rw k
  | inr k ↦ rw (k, h)
]

source_pixel_mono : (a b n : ℤ) → pos 1 <ℤ n → a ≤ℤ b → source_pixel a n ≤ source_pixel b n
source_pixel_mono a b n h le = ground (arith, span_parts n)

scaled_mono : (a b s t : ℕ) → a ≤ b → 0 < s → lround_ratio (a * t) s ≤ lround_ratio (b * t) s
scaled_mono a b s t h p = lround_mono (a * t) (b * t) s (grind arith) p

-- Between screens of 32-bit extents the entry coordinate keeps the order of the source
-- coordinates.
pub entry_coordinate-mono :
    (a b n m : ℤ)
    → IsInt32 n
    → IsInt32 m
    → a ≤ℤ b
    → entry_coordinate a n m ≤ℤ entry_coordinate b n m
entry_coordinate-mono a b n m tn tm le = elim (Bool-cases (leb_ℤ n (pos 1))) [
  | inl h ↦
      rw (entry_coordinate_trivial a n m (inl h), entry_coordinate_trivial b n m (inl h))
        (omega arith)
  | inr h ↦ elim (Bool-cases (leb_ℤ m (pos 1))) [
    | inl k ↦
        rw (entry_coordinate_trivial a n m (inr k), entry_coordinate_trivial b n m (inr k))
          (omega arith)
    | inr k ↦
        let hn : pos 1 <ℤ n = ground arith in
        let hm : pos 1 <ℤ m = ground arith in
        rw (entry_coordinate_exact a n m hn tn hm tm, entry_coordinate_exact b n m hn tn hm tm)
          (omega (
            arith,
            scaled_mono (source_pixel a n) (source_pixel b n) (pos_part (n -ℤ pos 1))
                (pos_part (m -ℤ pos 1)) (source_pixel_mono a b n hn le) (span-pos n hn),
          ))
  ]
]

source_pixel_low : (source n : ℤ) → pos 1 <ℤ n → source ≤ℤ pos 0 → source_pixel source n ≡ 0
source_pixel_low source n h l = ground (arith, span_parts n)

source_pixel_high :
    (source n : ℤ)
    → pos 1 <ℤ n
    → n -ℤ pos 1 ≤ℤ source
    → source_pixel source n ≡ pos_part (n -ℤ pos 1)
source_pixel_high source n h l = ground (arith, span_parts n)

lround_none : (s t : ℕ) → 0 < s → lround_ratio (0 * t) s ≡ 0
lround_none s t h = div-eq_of_lt (omega arith)

eq_span : (m : ℤ) → pos 1 <ℤ m → pos (pos_part (m -ℤ pos 1)) ≡ m -ℤ pos 1
eq_span m h = omega (arith, eq_of_parts, span_parts m (omega arith))

-- Between screens of more than one pixel and 32-bit extents, a point on or beyond an end of the
-- source enters at that end of the target.
pub entry_coordinate_ends :
    (source n m : ℤ)
    → pos 1 <ℤ n
    → IsInt32 n
    → pos 1 <ℤ m
    → IsInt32 m
    → (source ≤ℤ pos 0 → entry_coordinate source n m ≡ pos 0)
      × (n -ℤ pos 1 ≤ℤ source → entry_coordinate source n m ≡ m -ℤ pos 1)
entry_coordinate_ends source n m hn tn hm tm = (
  λ h. rw (
    entry_coordinate_exact source n m hn tn hm tm,
    source_pixel_low source n hn h,
    lround_none (pos_part (n -ℤ pos 1)) (pos_part (m -ℤ pos 1)) (span-pos n hn),
  ),
  λ h. rw (
    entry_coordinate_exact source n m hn tn hm tm,
    source_pixel_high source n hn h,
    lround_full (pos_part (n -ℤ pos 1)) (pos_part (m -ℤ pos 1)) (span-pos n hn),
    eq_span m hm,
  ),
)
