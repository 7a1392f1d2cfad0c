-- ===== src/Platform/Portal/Points.antt =====
-- src/platform/wayland_portal.cpp, PortalPlatform: from points of all outputs to points of a screen.
use mksync.Prelude.{
  ℕ, suc, ℤ, pos, clamp, add32, sub32, Bool, ◌&&◌, List, [], ◌∷◌, Option, none, some, if◌then◌else◌,
}
use mksync.Core.Events.{ScreenInfo}
use mksync.Platform.Portal.Screens.{screen_at}

-- Doubles, with the operations that the backend uses: a conversion from `int32_t`, sums, differences,
-- `std::hypot`, the largest one, comparisons, `std::floor` and `std::lround` converted to `int32_t`,
-- the negation, and the product with 12.
pub record Doubles (D : Type 0) : Type 0 where
  pub of_int : ℤ → D
  pub add : D → D → D
  pub sub : D → D → D
  pub hypot : D → D → D
  pub largest : D
  pub less : D → D → Bool
  pub at_most : D → D → Bool
  pub floor : D → ℤ
  pub lround : D → ℤ
  pub negate : D → D
  pub times12 : D → D

pub record LocalPoint : Type 0 where
  pub screen_index : ℕ
  pub x : ℤ
  pub y : ℤ

module _ {D : Type 0} (d : Doubles D) where
  unfoldable pub is_inside : ScreenInfo → D → D → Bool
  is_inside s x y =
      d.at_most (d.of_int s.x) x
      && (d.at_most (d.of_int s.y) y
          && (d.less x (d.of_int (add32 s.x s.width)) && d.less y (d.of_int (add32 s.y s.height))))

  -- The first screen that has the point.
  unfoldable pub find_inside : ℕ → List ScreenInfo → D → D → Option LocalPoint
  unfolding is_inside
  find_inside i [] x y = none
  find_inside i (s ∷ rest) x y =
      let later = find_inside (suc i) rest x y in
      if is_inside s x y
      then some (record {
        screen_index = i;
        x = d.floor (d.sub x (d.of_int s.x));
        y = d.floor (d.sub y (d.of_int s.y));
      })
      else later

  abbrev clamp_double : D → D → D → D
  clamp_double v lo hi = if d.less v lo then lo else if d.less hi v then hi else v

  unfoldable pub distance_to : ScreenInfo → D → D → D
  distance_to s x y =
      let local_x = clamp_double x (d.of_int s.x) (d.of_int (sub32 (add32 s.x s.width) (pos 1))) in
      let local_y = clamp_double y (d.of_int s.y) (d.of_int (sub32 (add32 s.y s.height) (pos 1))) in
      d.hypot (d.sub x local_x) (d.sub y local_y)

  -- The scan for `bestIndex`, from an index on, with the best so far and its distance.
  unfoldable pub nearest : ℕ → List ScreenInfo → D → D → ℕ → D → ℕ
  unfolding distance_to
  nearest i [] x y best distance = best
  nearest i (s ∷ rest) x y best distance =
      let nearer = d.less (distance_to s x y) distance in
      nearest (suc i) rest x y (if nearer then i else best)
        (if nearer then distance_to s x y else distance)

  abbrev clamp_to : ℤ → ℕ → ℤ → ScreenInfo → LocalPoint
  clamp_to px i py s = record {
    screen_index = i;
    x = clamp (sub32 px s.x) (pos 0) (sub32 s.width (pos 1));
    y = clamp (sub32 py s.y) (pos 0) (sub32 s.height (pos 1));
  }

  unfoldable pub global_to_local : List ScreenInfo → D → D → Option LocalPoint
  unfolding find_inside nearest
  global_to_local screens x y = elim (find_inside 0 screens x y) [
    | some p ↦ some p
    | none ↦
        let best = nearest 0 screens x y 0 d.largest in
        elim (screen_at screens best) [
          | none ↦ none
          | some s ↦ some (clamp_to (d.lround x) best (d.lround y) s)
        ]
  ]
