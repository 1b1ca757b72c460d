-- ===== src/Users/Removal.antt =====
-- backend/src/modules/users/addresses.service.ts: `remove`, and the default address it hands over.
use e_commerce_titulo_interm.Common.{
  cons-ne-nil, ap, false≢true, ◌∙◌, find-keep, subst, sum-row, ℕ, ◌≤◌, ◌≡◌, ◌≢◌, refl, sym, inl,
  inr, Bool, true, Option, none, some, List, [], ◌∷◌, ◌&&◌, not, ◌==◌, ==_iff, if◌then◌else◌,
  Bool-cases, Option-cases, keep, find, sum, All, All-trivial, All-find, ok, IfOk, IfOk-bind,
  IfOk-intro, HasKeys, HasKeys-update_key, find_key, find_key-find, find-update_key,
  find-update_key_other, sum-update_key, update_key, arith,
}
use e_commerce_titulo_interm.Users.Rows.{Address}
use e_commerce_titulo_interm.Users.Addresses.{
  address_key, is_active_of, find_all_for_user, find_owned_or_fail, set_default, save, choose_next,
  hand_over, retired, remove,
}
use e_commerce_titulo_interm.Users.DefaultAddress.{
  live, live_default, IsBook, owned_lem, save-IsBook,
}

-- One address at most is kept out by its key.
module _ (test : Address → Bool) (id : ℕ) where
  abbrev pub count : Address → ℕ
  count a = if test a then 1 else 0

  none-left :
      (addresses : List Address)
      → All (λ b. address_key b ≢ id) addresses
      → keep (λ b. not (b.id == id)) (keep test addresses) ≡ []
      → sum count addresses ≡ 0
  none-left [] fresh h = refl
  none-left (a ∷ rest) fresh h = elim (Bool-cases (test a)) [
    | inl e ↦ let left = rw e at h in ground (arith, fresh.0, ==_iff a.id id, left)
    | inr e ↦ let none = none-left rest fresh.1 (rw e at h) in rw e (omega (arith, none))
  ]

  one-left :
      (addresses : List Address)
      → HasKeys address_key addresses
      → keep (λ b. not (b.id == id)) (keep test addresses) ≡ []
      → sum count addresses ≤ 1
  one-left [] keys h = omega arith
  one-left (a ∷ rest) keys h = elim (Bool-cases (test a)) [
    | inl e ↦
        let left = rw e at h in
        let none = none-left rest in
        elim (Bool-cases (a.id == id)) [
          | inl same ↦
              let fresh =
                subst (λ i. All (λ b. address_key b ≢ i) rest) ((==_iff a.id id).0 same) keys.0 in
              let zero_rest = none fresh (rw same at left) in rw e (omega (arith, zero_rest))
          | inr other ↦ absurd (cons-ne-nil _ _ (rw other at left))
        ]
    | inr e ↦ let least = one-left rest keys.1 (rw e at h) in rw e (omega (arith, least))
  ]

-- What an address found among the others is.
other_lem :
    (user_id id : ℕ) (test : Address → Bool) (addresses : List Address) {b : Address}
    → HasKeys address_key addresses
    → find test (keep (λ b. not (b.id == id)) (find_all_for_user user_id addresses)) ≡ some b
    → (find_key address_key b.id addresses ≡ some b) × (b.id ≢ id) × (is_active_of user_id b ≡ true)
other_lem user_id id test addresses {b} keys h =
    let one = find-keep (λ x. not (x.id == id)) test (find_all_for_user user_id addresses) in
    let two = find-keep (is_active_of user_id) (λ x. not (x.id == id) && test x) addresses in
    let passes : Address → Bool = λ x. is_active_of user_id x && (not (x.id == id) && test x) in
    let found : find passes addresses ≡ some b = sym two ∙ (sym one ∙ h) in
    let passed = (All-find (λ x. Unit {0}) passes addresses (All-trivial addresses) found).1 in
    (
      find_key-find address_key passes addresses keys found,
      ground (arith, passed, ==_iff b.id id),
      ground (arith, passed),
    )

-- The book after `hand_over` and the write that retires the address.
module _ (v : ℕ) (addresses : List Address) (a : Address) (book : IsBook v addresses) where
  retired-IsBook :
      find_key address_key a.id addresses ≡ some a
      → (a.is_default ≡ true → a.user_id ≡ v → a.is_active ≡ true → sum (live v) addresses ≤ 1)
      → IsBook v (save (retired a) addresses)
  retired-IsBook found last =
      save-IsBook v (retired a) addresses book.0 found (ground (arith, book))
        (ground (arith, book, last, sum-row address_key (live_default v) a.id addresses found))

  handed-IsBook :
      (b : Address)
      → find_key address_key a.id addresses ≡ some a
      → find_key address_key b.id addresses ≡ some b
      → b.id ≢ a.id
      → is_active_of a.user_id b ≡ true
      → a.is_active ≡ true
      → a.is_default ≡ true
      → IsBook v (save (retired a) (update_key address_key b.id (set_default true) addresses))
  handed-IsBook b found_a found_b other active_b active_a default_a =
      let handed = update_key address_key b.id (set_default true) addresses in
      let keys : HasKeys address_key handed =
        HasKeys-update_key address_key b.id (set_default true) addresses (λ y e. refl) book.0 in
      let find_a : find_key address_key a.id handed ≡ some a =
        find-update_key_other address_key b.id a.id (set_default true) addresses (λ y e. refl)
          (λ e. other (sym e))
        ∙ found_a in
      let next = record b { is_default = true } in
      let find_b : find_key address_key b.id handed ≡ some next =
        find-update_key address_key b.id (set_default true) addresses (λ y e. refl) found_b in
      let final_b =
        find-update_key_other address_key a.id b.id (λ row. retired a) handed (λ y e. sym e) other
        ∙ find_b in
      let first_step =
        sum-update_key address_key (live_default v) b.id (set_default true) addresses found_b in
      let first_live =
        sum-update_key address_key (live v) b.id (set_default true) addresses found_b in
      let last_step =
        sum-update_key address_key (live_default v) a.id (λ row. retired a) handed find_a in
      let last_live = sum-update_key address_key (live v) a.id (λ row. retired a) handed find_a in
      let row_a = sum-row address_key (live_default v) a.id addresses found_a in
      let row_b = sum-row address_key (live_default v) b.id (save (retired a) handed) final_b in
      (
        HasKeys-update_key address_key a.id (λ row. retired a) handed (λ y e. sym e) keys,
        ground (arith, book, first_step, last_step, row_a, row_b),
        ground (arith, book, first_step, first_live, last_step, last_live, row_a, row_b),
      )

-- What the choice of the next default returns lets the address go.
choose_next-IsBook :
    (v : ℕ) (next : Option ℕ) (remaining addresses : List Address) (a : Address)
    → IsBook v addresses
    → find_key address_key a.id addresses ≡ some a
    → a.is_active ≡ true
    → a.is_default ≡ true
    → keep (λ b. not (b.id == a.id)) (find_all_for_user a.user_id addresses) ≡ remaining
    → IfOk (λ handed. IsBook v (save (retired a) handed)) (choose_next next remaining addresses)
unfolding choose_next
choose_next-IsBook v next [] addresses a book found active marked left =
    retired-IsBook v addresses a book found (λ marked user active.
      subst (λ u. sum (live u) addresses ≤ 1) user
        (one-left (is_active_of a.user_id) a.id addresses book.0 left))
choose_next-IsBook v none (r ∷ rs) addresses a book found active marked left = tt
choose_next-IsBook v (some n) (r ∷ rs) addresses a book found active marked left =
    elim (Option-cases (find (λ b. b.id == n) (r ∷ rs))) [
      | inl e ↦ rw (e, choose_next) tt
      | inr (b, e) ↦
          let other =
            other_lem a.user_id a.id (λ b. b.id == n) addresses book.0
              (ap (find (λ b. b.id == n)) left ∙ e) in
          rw (e, choose_next)
            (handed-IsBook v addresses a book b found other.0 other.1 other.2 active marked)
    ]

-- What `hand_over` returns lets the address go.
hand_over-IsBook :
    (v : ℕ) (next : Option ℕ) (addresses : List Address) (a : Address)
    → IsBook v addresses
    → find_key address_key a.id addresses ≡ some a
    → a.is_active ≡ true
    → IfOk
        (λ handed. IsBook v (save (retired a) handed))
        (hand_over a.is_default a.user_id a.id next addresses)
hand_over-IsBook v next addresses a book found active = elim (Bool-cases a.is_default) [
  | inr e ↦
      rw e
        (retired-IsBook v addresses a book found (λ marked. absurd (false≢true (sym e ∙ marked))))
  | inl e ↦ rw e (
      choose_next-IsBook v next
        (keep (λ b. not (b.id == a.id)) (find_all_for_user a.user_id addresses)) addresses a book
        found active e refl)
]

-- The service's `remove` leaves the book of every customer with its default address.
pub remove-IsBook :
    (v user_id id : ℕ) (next : Option ℕ) (addresses : List Address)
    → IsBook v addresses
    → IfOk (IsBook v) (remove user_id id next addresses)
unfolding remove
remove-IsBook v user_id id next addresses book =
    IfOk-bind (λ a. find_owned_or_fail user_id id addresses ≡ ok a) (IsBook v)
      (find_owned_or_fail user_id id addresses) _
      (IfOk-intro _ (find_owned_or_fail user_id id addresses) (λ a e. e))
      (λ a e.
        let owned = owned_lem user_id id addresses book.0 e in
        IfOk-bind (λ handed. IsBook v (save (retired a) handed)) (IsBook v)
          (hand_over a.is_default user_id id next addresses) _
          (rw (sym owned.1, sym owned.2) (hand_over-IsBook v next addresses a book owned.0 owned.3))
          (λ handed kept. kept))
