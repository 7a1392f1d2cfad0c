-- ===== src/Platform/Wayland/Injector.antt =====
-- src/platform/wayland.cpp, WaylandInputInjector: the start of its protocol objects.
use mksync.Prelude.{
  ◌≡◌, refl, Bool, true, false, not, ◌||◌, Result, ok, err, if◌then◌else◌, Bool-cases, inl, inr,
}

-- Which of the injector's objects exist.
pub record Objects : Type 0 where
  pub virtual_pointer : Bool
  pub virtual_keyboard : Bool
  pub poller : Bool
  pub xkb_context : Bool
  pub keymap : Bool

abbrev pub no_objects : Objects
no_objects = record {
  virtual_pointer = false;
  virtual_keyboard = false;
  poller = false;
  xkb_context = false;
  keymap = false;
}

-- How the compositor and the libraries answer `initialize`: the globals, the new objects, the
-- context, the key map, the rest of `createKeymap`, the poller and the flush.
pub record Answers (E : Type 0) : Type 0 where
  pub has_globals : Bool
  pub creates_pointer : Bool
  pub creates_keyboard : Bool
  pub creates_context : Bool
  pub compiles_keymap : Bool
  pub sends_keymap : Result E (Unit {0})
  pub makes_poller : Result E (Unit {0})
  pub flushes : Result E (Unit {0})
  pub not_supported : E
  pub not_enough_memory : E
  pub invalid_argument : E

unfoldable pub close : Objects → Objects
close o = no_objects

abbrev pub with_objects : Bool → Objects
with_objects poller = record {
  virtual_pointer = true;
  virtual_keyboard = true;
  poller = poller;
  xkb_context = true;
  keymap = true;
}

module _ {E : Type 0} where
  unfoldable pub create_keymap : Answers E → Objects → Objects × Result E (Unit {0})
  create_keymap a o =
      if not a.creates_context
      then (o, err a.not_enough_memory)
      else if not a.compiles_keymap
      then (record o { xkb_context = true }, err a.invalid_argument)
      else (record o { xkb_context = true; keymap = true }, a.sends_keymap)

  -- What follows the flush, the poller and the key map; every failure closes what there is.
  unfoldable pub after_flush : Objects → Result E (Unit {0}) → Objects × Result E (Unit {0})
  after_flush o (ok u) = (o, ok tt)
  after_flush o (err e) = (close o, err e)

  unfoldable pub after_poller :
      Answers E → Objects → Result E (Unit {0}) → Objects × Result E (Unit {0})
  unfolding after_flush
  after_poller a o (ok u) = after_flush (record o { poller = true }) a.flushes
  after_poller a o (err e) = (close o, err e)

  unfoldable pub after_keymap :
      Answers E → Objects × Result E (Unit {0}) → Objects × Result E (Unit {0})
  unfolding after_poller
  after_keymap a (o, ok u) = after_poller a o a.makes_poller
  after_keymap a (o, err e) = (close o, err e)

  unfoldable pub initialize : Answers E → Objects → Objects × Result E (Unit {0})
  unfolding close create_keymap after_keymap
  initialize a o =
      let created = record (close o) {
        virtual_pointer = a.creates_pointer;
        virtual_keyboard = a.creates_keyboard;
      } in
      if not a.has_globals
      then (close o, err a.not_supported)
      else if not a.creates_pointer || not a.creates_keyboard
      then (close created, err a.not_enough_memory)
      else after_keymap a (create_keymap a created)

  -- All objects are there after a success, and none after a failure.
  abbrev pub IsAllOrNothing : Objects × Result E (Unit {0}) → Type 0
  IsAllOrNothing (o, ok u) = o ≡ with_objects true
  IsAllOrNothing (o, err e) = o ≡ no_objects

  flush-IsAllOrNothing :
      (r : Result E (Unit {0})) → IsAllOrNothing (after_flush (with_objects true) r)
  unfolding after_flush close
  flush-IsAllOrNothing (ok u) = refl
  flush-IsAllOrNothing (err e) = refl

  poller-IsAllOrNothing :
      (a : Answers E) (r : Result E (Unit {0}))
      → IsAllOrNothing (after_poller a (with_objects false) r)
  unfolding after_poller close
  poller-IsAllOrNothing a (ok u) = flush-IsAllOrNothing a.flushes
  poller-IsAllOrNothing a (err e) = refl

  keymap-IsAllOrNothing :
      (a : Answers E) (r : Result E (Unit {0}))
      → IsAllOrNothing (after_keymap a (with_objects false, r))
  unfolding after_keymap close
  keymap-IsAllOrNothing a (ok u) = poller-IsAllOrNothing a a.makes_poller
  keymap-IsAllOrNothing a (err e) = refl

  -- An initialization of the injector gives all of its objects, or an error and none of them,
  -- whichever step fails and whatever was there before.
  pub initialize-IsAllOrNothing : (a : Answers E) (o : Objects) → IsAllOrNothing (initialize a o)
  unfolding initialize create_keymap close after_keymap
  initialize-IsAllOrNothing a o = elim (Bool-cases a.has_globals) [
    | inr g ↦ rw (initialize, g) refl
    | inl g ↦ elim (Bool-cases a.creates_pointer) [
      | inr p ↦ rw (initialize, g, p) refl
      | inl p ↦ elim (Bool-cases a.creates_keyboard) [
        | inr k ↦ rw (initialize, g, p, k) refl
        | inl k ↦ elim (Bool-cases a.creates_context) [
          | inr c ↦ rw (initialize, g, p, k, c) refl
          | inl c ↦ elim (Bool-cases a.compiles_keymap) [
            | inr m ↦ rw (initialize, g, p, k, c, m) refl
            | inl m ↦
                rw (initialize, g, p, k, c, m)
                  (keymap-IsAllOrNothing
                    (record a {
                      has_globals = true;
                      creates_pointer = true;
                      creates_keyboard = true;
                      creates_context = true;
                      compiles_keymap = true;
                    })
                    a.sends_keymap)
          ]
        ]
      ]
    ]
  ]
