-- ===== src/Network/Live.antt =====
-- The sessions of a session manager (src/session.c): those in the active slots.
use libevlite.Base.{
  ℕ, zero, suc, ◌<◌, ◌≡◌, ◌≢◌, refl, sym, ap, ◌∙◌, Bool, true, false, ◌&&◌, Option, none, some,
  List, [], ◌∷◌, leb, ◌==◌, if◌then◌else◌, get_or, arith, occurs, Bool-cases, Option-cases, inl,
  inr,
}
use libevlite.Session.Sid.{sid_seq, sid_version}
use libevlite.Session.Manager.Defs.{Manager, Slot, slot_at, no_slot, session_of, get}

-- The sessions in the active slots.
unfoldable pub live : List Slot → List ℕ
live [] = []
live (slot ∷ slots) = elim (if slot.is_active then session_of slot.link else none) [
  | none ↦ live slots
  | some a ↦ a ∷ live slots
]

pub member_self : (a : ℕ) (xs : List ℕ) → occurs a (a ∷ xs) ≡ suc (occurs a xs)
member_self a xs = let self : (a == a) ≡ true = ground arith in rw self (omega arith)

pub member_other : (b a : ℕ) (xs : List ℕ) → b ≢ a → occurs a (b ∷ xs) ≡ occurs a xs
member_other b a xs n = let miss : (b == a) ≡ false = ground arith in rw miss (omega arith)

live_slot :
    (slots : List Slot) (i a : ℕ)
    → (get_or slots i no_slot).is_active ≡ true
    → session_of (get_or slots i no_slot).link ≡ some a
    → 0 < occurs a (live slots)
unfolding live
live_slot [] i a on h = absurd cc
live_slot (slot ∷ slots) zero a on h =
    let choice : Option ℕ → List ℕ = λ o. elim o [ none ↦ live slots | some b ↦ b ∷ live slots ] in
    let here : live (slot ∷ slots) ≡ a ∷ live slots =
      ap choice (ap (λ c. if c then session_of slot.link else none) on ∙ h) in
    omega (arith, ap (occurs a) here, member_self a (live slots))
live_slot (slot ∷ slots) (suc i) a on h =
    let rest = live_slot slots i a on h in
    let choice : Option ℕ → List ℕ = λ o. elim o [ none ↦ live slots | some b ↦ b ∷ live slots ] in
    elim (Option-cases (if slot.is_active then session_of slot.link else none)) [
      | inl nothing ↦ omega (arith, rest, ap (λ o. occurs a (choice o)) nothing)
      | inr (b, some_b) ↦ omega (arith, rest, ap (λ o. occurs a (choice o)) some_b)
    ]

-- What session_manager_get() finds is in an active slot.
pub get-live : (m : Manager) (id a : ℕ) → get m id ≡ some a → 0 < occurs a (live m.table)
unfolding get
get-live m id a h =
    let slot = slot_at m (sid_seq id) in
    elim (Bool-cases (leb m.capacity (sid_seq id))) [
      | inl outside ↦ absurd (cc_none (sym (at_once outside) ∙ h))
      | inr inside ↦ elim (Bool-cases (slot.is_active && slot.version == sid_version id)) [
        | inr unlike ↦ absurd (cc_none (sym (ap later inside ∙ ap inner unlike) ∙ h))
        | inl alike ↦
            live_slot m.table (sid_seq id) a
              (first slot.is_active (slot.version == sid_version id) alike)
              (sym (ap later inside ∙ ap inner alike) ∙ h)
      ]
    ]
  where
    inner : Bool → Option ℕ
    inner c = if c then session_of (slot_at m (sid_seq id)).link else none

    later : Bool → Option ℕ
    later c =
        let slot = slot_at m (sid_seq id) in
        if c then none else inner (slot.is_active && slot.version == sid_version id)

    at_once : leb m.capacity (sid_seq id) ≡ true → get m id ≡ none
    at_once e = ap later e

    first : (b c : Bool) → (b && c) ≡ true → b ≡ true
    first true c e = refl
    first false c e = e

    cc_none : ◌≡◌ {A = Option ℕ} none (some a) → ⊥
    cc_none e = cc
