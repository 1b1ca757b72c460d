-- ===== src/Users/NewAddress.antt =====
-- backend/src/modules/users/addresses.service.ts: `create`, and the mark that `update` may take off.
use e_commerce_titulo_interm.Common.{
  Returns, ◌||◌, All-key-map, false≢true, sum-row, ℕ, ◌+◌, ◌≤◌, ◌≡◌, ◌≢◌, refl, sym, inl, inr, Bool,
  true, false, some, List, [], ◌∷◌, ◌++◌, ◌&&◌, not, if-cases, Bool-cases, keep, sum, sum-append,
  All, ok, HasKeys, HasKeys-append, sum-update_key, arith,
}
use e_commerce_titulo_interm.Users.Rows.{Address, CreateAddressDto, UpdateAddressDto}
use e_commerce_titulo_interm.Users.Addresses.{
  address_key, is_active_of, find_all_for_user, find_owned_or_fail, cleared, clear_default,
  is_empty, asks_default, new_address, create, assign, save, update,
}
use e_commerce_titulo_interm.Users.DefaultAddress.{
  live, live_default, IsBook, owned_lem, live-clear, default-clear, cleared-id, clear-HasKeys,
}
use e_commerce_titulo_interm.Users.Removal.{count}

-- Whether the test keeps anything.
kept_lem :
    (test : Address → Bool) (addresses : List Address)
    → (is_empty (keep test addresses) ≡ true → sum (count test 0) addresses ≡ 0)
      × (is_empty (keep test addresses) ≡ false → 1 ≤ sum (count test 0) addresses)
kept_lem test [] = (λ e. refl, λ e. absurd (false≢true (sym e)))
kept_lem test (a ∷ rest) = elim (Bool-cases (test a)) [
  | inl e ↦ rw e (λ empty. absurd (false≢true empty), λ full. omega arith)
  | inr e ↦
      let left = kept_lem test rest in
      rw e (λ h. omega (arith, left.0 h), λ h. omega (arith, left.1 h))
]

default-le-live :
    (v : ℕ) (addresses : List Address) → sum (live_default v) addresses ≤ sum (live v) addresses
default-le-live v [] = omega arith
default-le-live v (a ∷ rest) = ground (arith, default-le-live v rest)

clear-fresh :
    (user_id id : ℕ) (addresses : List Address)
    → All (λ b. address_key b ≢ id) addresses
    → All (λ b. address_key b ≢ id) (clear_default user_id addresses)
unfolding clear_default
clear-fresh user_id id addresses fresh =
    All-key-map address_key (cleared user_id) (cleared-id user_id) id addresses fresh

-- A new row at the end of the table.
append-IsBook :
    (v : ℕ) (addresses : List Address) (a : Address)
    → HasKeys address_key addresses
    → All (λ b. address_key b ≢ address_key a) addresses
    → (sum (live_default v) addresses + live_default v a ≤ 1)
    → (1 ≤ sum (live v) addresses + live v a
        → 1 ≤ sum (live_default v) addresses + live_default v a)
    → IsBook v (addresses ++ (a ∷ []))
append-IsBook v addresses a keys fresh at_most at_least =
    let defaults = sum-append (live_default v) addresses (a ∷ []) in
    let lives = sum-append (live v) addresses (a ∷ []) in
    (
      HasKeys-append address_key addresses a keys fresh,
      omega (arith, defaults, at_most),
      λ some_live. omega (arith, defaults, at_least (omega (arith, lives, some_live))),
    )

-- The service's `create` keeps the book of every customer; the database gives a new key.
pub create-IsBook :
    (v user_id id : ℕ) (dto : CreateAddressDto) (addresses : List Address)
    → All (λ a. a.id ≢ id) addresses
    → IsBook v addresses
    → IsBook v (create id user_id dto addresses)
unfolding create
create-IsBook v user_id id dto addresses fresh book =
    let first = is_empty (find_all_for_user user_id addresses) in
    let default = first || asks_default dto.is_default in
    let kept = kept_lem (is_active_of user_id) addresses in
    let few = default-le-live v addresses in
    let row = new_address id user_id dto default in
    let lives = live-clear v user_id addresses in
    let defaults = default-clear v user_id addresses in
    if-cases (λ rows. IsBook v (rows ++ (row ∷ []))) (default && not first)
      (λ marks.
        append-IsBook v (clear_default user_id addresses) row
          (clear-HasKeys user_id addresses book.0) (clear-fresh user_id id addresses fresh)
          (ground (arith, book, kept, few, lives, defaults, marks))
          (ground (arith, book, kept, few, lives, defaults, marks)))
      (λ keeps.
        append-IsBook v addresses row book.0 fresh (ground (arith, book, kept, few, keeps))
          (ground (arith, book, kept, few, keeps)))

-- In a table of addresses with distinct keys where the customer has one default address at most,
-- and one as soon as there is an active address, an update of the default address with isDefault
-- false returns and leaves the customer with an address but without a default one.
pub update-unmarks :
    (user_id id : ℕ) (dto : UpdateAddressDto) (addresses : List Address) (a : Address)
    → IsBook user_id addresses
    → find_owned_or_fail user_id id addresses ≡ ok a
    → a.is_default ≡ true
    → dto.is_default ≡ some false
    → Returns
        (λ left. (1 ≤ sum (live user_id) left) × (sum (live_default user_id) left ≡ 0))
        (update user_id id dto addresses)
unfolding update
update-unmarks user_id id dto addresses a book e marked wish =
    let owned = owned_lem user_id id addresses book.0 e in
    let saved = assign dto a in
    let defaults =
      sum-update_key address_key (live_default user_id) a.id (λ row. saved) addresses owned.0 in
    let lives = sum-update_key address_key (live user_id) a.id (λ row. saved) addresses owned.0 in
    let row_a = sum-row address_key (live user_id) a.id addresses owned.0 in
    rw e (
      if-cases
        (λ rows.
          (1 ≤ sum (live user_id) (save saved rows))
          × (sum (live_default user_id) (save saved rows) ≡ 0))
        (asks_default dto.is_default && not a.is_default) (λ marks. ground (arith, marks, wish))
        (λ keeps. (
          ground (arith, lives, owned, row_a),
          ground (arith, book, defaults, owned, marked, wish),
        )))
