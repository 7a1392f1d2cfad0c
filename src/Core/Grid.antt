-- ===== src/Core/Grid.antt =====
-- src/core/topology.hpp: grid cells, screen keys, points and their defaulted comparisons.
use mksync.Prelude.{
  ℕ, ◌≡◌, ℤ, ltb_ℤ, eqb_ℤ, eqb_ℤ_iff, ltb, ◌==◌, str_eq, str_eq_iff, str_less, Bool, true, ◌&&◌,
  ◌||◌, ◌↔◌, String, Key, ==_iff, arith,
}
use mksync.Core.Events.{ScreenInfo}

pub data Edge : Type 0 where
  left right top bottom : Edge

pub record GridPosition : Type 0 where
  pub x : ℤ
  pub y : ℤ

pub record ScreenKey : Type 0 where
  pub owner_id : String
  pub screen_index : ℕ

pub record TopologyScreen : Type 0 where
  pub key : ScreenKey
  pub cell : GridPosition
  pub info : ScreenInfo
  pub local : Bool

pub record ScreenPoint : Type 0 where
  pub key : ScreenKey
  pub x : ℤ
  pub y : ℤ

-- The defaulted comparisons: field by field, in order.
abbrev pub position_eq : GridPosition → GridPosition → Bool
position_eq a b = eqb_ℤ a.x b.x && eqb_ℤ a.y b.y

abbrev pub position_less : GridPosition → GridPosition → Bool
position_less a b = ltb_ℤ a.x b.x || (eqb_ℤ a.x b.x && ltb_ℤ a.y b.y)

pub position_eq_iff : (a b : GridPosition) → (position_eq a b ≡ true) ↔ (a ≡ b)
position_eq_iff a b = ground (arith, eqb_ℤ_iff a.x b.x, eqb_ℤ_iff a.y b.y)

instance abbrev pub position_key : Key GridPosition
position_key = record { beq = position_eq; less = position_less; beq_iff = position_eq_iff }

abbrev pub screen_key_eq : ScreenKey → ScreenKey → Bool
screen_key_eq a b = str_eq a.owner_id b.owner_id && a.screen_index == b.screen_index

abbrev pub screen_key_less : ScreenKey → ScreenKey → Bool
screen_key_less a b =
    str_less a.owner_id b.owner_id
    || (str_eq a.owner_id b.owner_id && ltb a.screen_index b.screen_index)

pub screen_key_eq_iff : (a b : ScreenKey) → (screen_key_eq a b ≡ true) ↔ (a ≡ b)
screen_key_eq_iff a b =
    ground (arith, str_eq_iff a.owner_id b.owner_id, ==_iff a.screen_index b.screen_index)

instance abbrev pub screen_key : Key ScreenKey
screen_key = record { beq = screen_key_eq; less = screen_key_less; beq_iff = screen_key_eq_iff }

abbrev pub screen_point_eq : ScreenPoint → ScreenPoint → Bool
screen_point_eq a b = screen_key_eq a.key b.key && (eqb_ℤ a.x b.x && eqb_ℤ a.y b.y)
