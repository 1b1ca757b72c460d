-- ===== src/Users/DefaultAddress.antt =====
-- backend/src/modules/users/addresses.service.ts: the address book of a customer has exactly one
-- default address while it has an address at all.
use e_commerce_titulo_interm.Common.{
  ℕ, ◌+◌, ◌≤◌, ◌≡◌, ◌≢◌, refl, sym, inl, inr, true, false, some, List, [], ◌∷◌, ◌&&◌, not, ◌==◌,
  if◌then◌else◌, if-cases, Option-cases, find, sum, All-trivial, All-find, ok, ok-injective,
  err-ne-ok, IfOk, IfOk-bind, IfOk-intro, HasKeys, HasKeys-update_key, find_key, find_key-find,
  sum-update_key, find_key-map, HasKeys-map, arith,
}
use e_commerce_titulo_interm.Users.Rows.{Address, UpdateAddressDto}
use e_commerce_titulo_interm.Users.Addresses.{
  address_key, is_active_of, is_owned, find_owned_or_fail, set_default, cleared, clear_default,
  asks_default, assign, save, update, mark_default,
}

-- One for an active address of the user, and one for an active default address.
abbrev pub live : ℕ → Address → ℕ
live user_id a = if is_active_of user_id a then 1 else 0

abbrev pub live_default : ℕ → Address → ℕ
live_default user_id a = if is_active_of user_id a && a.is_default then 1 else 0

-- The book of a user: at most one default, and one as soon as there is an address.
abbrev pub IsBook : ℕ → List Address → Type 0
IsBook user_id addresses =
    HasKeys address_key addresses
    × (sum (live_default user_id) addresses ≤ 1)
    × (1 ≤ sum (live user_id) addresses → 1 ≤ sum (live_default user_id) addresses)

pub owned_lem :
    (user_id id : ℕ) (addresses : List Address) {a : Address}
    → HasKeys address_key addresses
    → find_owned_or_fail user_id id addresses ≡ ok a
    → (find_key address_key a.id addresses ≡ some a)
      × (a.id ≡ id)
      × (a.user_id ≡ user_id)
      × (a.is_active ≡ true)
unfolding find_owned_or_fail
owned_lem user_id id addresses {a} keys h =
    elim (Option-cases (find (is_owned user_id id) addresses)) [
      | inl e ↦ absurd (err-ne-ok (rw (e, find_owned_or_fail) at h))
      | inr (b, e) ↦
          let same : b ≡ a = ok-injective (rw (e, find_owned_or_fail) at h) in
          let found : find (is_owned user_id id) addresses ≡ some a = rw (sym same) e in
          let passed =
            (All-find (λ b. Unit {0}) (is_owned user_id id) addresses (All-trivial addresses)
              found).1 in
          (
            find_key-find address_key (is_owned user_id id) addresses keys found,
            ground (arith, passed),
            ground (arith, passed),
            ground (arith, passed),
          )
    ]

module _ (v user_id : ℕ) where
  live-cleared : (a : Address) → live v (cleared user_id a) ≡ live v a
  live-cleared a = ground arith

  default-cleared :
      (a : Address)
      → live_default v (cleared user_id a) ≡ (if v == user_id then 0 else live_default v a)
  default-cleared a = ground arith

  pub live-clear :
      (addresses : List Address)
      → sum (live v) (clear_default user_id addresses) ≡ sum (live v) addresses
  unfolding clear_default
  live-clear [] = refl
  live-clear (a ∷ rest) = ground (arith, live-clear rest)

  pub default-clear :
      (addresses : List Address)
      → sum (live_default v) (clear_default user_id addresses)
        ≡ (if v == user_id then 0 else sum (live_default v) addresses)
  unfolding clear_default
  default-clear [] = ground arith
  default-clear (a ∷ rest) = ground (arith, default-clear rest)

pub cleared-id : (user_id : ℕ) (a : Address) → address_key (cleared user_id a) ≡ address_key a
cleared-id user_id a = ground arith

-- Writing a row over the row of its key.
module _ (v : ℕ) (saved : Address) (addresses : List Address) {a : Address} where
  pub save-IsBook :
      HasKeys address_key addresses
      → find_key address_key saved.id addresses ≡ some a
      → (sum (live_default v) addresses + live_default v saved ≤ 1 + live_default v a)
      → (1 + live v a ≤ sum (live v) addresses + live v saved
          → 1 + live_default v a ≤ sum (live_default v) addresses + live_default v saved)
      → IsBook v (save saved addresses)
  save-IsBook keys found at_most at_least =
      let defaults =
        sum-update_key address_key (live_default v) saved.id (λ row. saved) addresses found in
      let lives = sum-update_key address_key (live v) saved.id (λ row. saved) addresses found in
      (
        HasKeys-update_key address_key saved.id (λ row. saved) addresses (λ y e. sym e) keys,
        omega (arith, defaults, at_most),
        λ some_live. omega (arith, defaults, at_least (omega (arith, lives, some_live))),
      )

pub clear-HasKeys :
    (user_id : ℕ) (addresses : List Address)
    → HasKeys address_key addresses
    → HasKeys address_key (clear_default user_id addresses)
unfolding clear_default
clear-HasKeys user_id addresses keys =
    HasKeys-map address_key (cleared user_id) (cleared-id user_id) addresses keys

clear-find :
    (user_id id : ℕ) (addresses : List Address) {a : Address}
    → find_key address_key id addresses ≡ some a
    → find_key address_key id (clear_default user_id addresses) ≡ some (cleared user_id a)
unfolding clear_default
clear-find user_id id addresses found =
    find_key-map address_key (cleared user_id) (cleared-id user_id) id addresses found

-- `markDefault` leaves every customer with one default address, if they have an address.
pub mark_default-IsBook :
    (v user_id id : ℕ) (addresses : List Address)
    → IsBook v addresses
    → IfOk (IsBook v) (mark_default user_id id addresses)
unfolding mark_default
mark_default-IsBook v user_id id addresses book =
    IfOk-bind (λ a. find_owned_or_fail user_id id addresses ≡ ok a) (IsBook v)
      (find_owned_or_fail user_id id addresses) _
      (IfOk-intro _ (find_owned_or_fail user_id id addresses) (λ a e. e))
      (λ a e.
        let owned = owned_lem user_id id addresses book.0 e in
        save-IsBook v (set_default true a) (clear_default user_id addresses)
          (clear-HasKeys user_id addresses book.0) (clear-find user_id a.id addresses owned.0)
          (ground (
            arith,
            book,
            owned,
            live-clear v user_id addresses,
            default-clear v user_id addresses,
            live-cleared v user_id a,
            default-cleared v user_id a,
          ))
          (ground (
            arith,
            book,
            owned,
            live-clear v user_id addresses,
            default-clear v user_id addresses,
            live-cleared v user_id a,
            default-cleared v user_id a,
          )))

-- The service's `update` keeps the book of every customer, unless it takes the mark off the default.
pub update-IsBook :
    (v user_id id : ℕ) (dto : UpdateAddressDto) (addresses : List Address)
    → dto.is_default ≢ some false
    → IsBook v addresses
    → IfOk (IsBook v) (update user_id id dto addresses)
unfolding update
update-IsBook v user_id id dto addresses wish book =
    IfOk-bind (λ a. find_owned_or_fail user_id id addresses ≡ ok a) (IsBook v)
      (find_owned_or_fail user_id id addresses) _
      (IfOk-intro _ (find_owned_or_fail user_id id addresses) (λ a e. e))
      (λ a e.
        let owned = owned_lem user_id id addresses book.0 e in
        if-cases (λ rows. IsBook v (save (assign dto a) rows))
          (asks_default dto.is_default && not a.is_default)
          (λ marks.
            save-IsBook v (assign dto a) (clear_default user_id addresses)
              (clear-HasKeys user_id addresses book.0) (clear-find user_id a.id addresses owned.0)
              (ground (
                arith,
                wish,
                book,
                owned,
                live-clear v user_id addresses,
                default-clear v user_id addresses,
                live-cleared v user_id a,
                default-cleared v user_id a,
              ))
              (ground (
                arith,
                wish,
                book,
                owned,
                live-clear v user_id addresses,
                default-clear v user_id addresses,
                live-cleared v user_id a,
                default-cleared v user_id a,
              )))
          (λ keeps.
            save-IsBook v (assign dto a) addresses book.0 owned.0
              (ground (arith, wish, book, owned)) (ground (arith, wish, book, owned))))
