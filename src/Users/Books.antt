-- ===== src/Users/Books.antt =====
-- backend/src/modules/users/addresses.service.ts: any sequence of calls on the table of addresses.
use e_commerce_titulo_interm.Common.{ℕ, ◌≡◌, ◌≢◌, Option, some, List, false, All, IfOk, ok, subst}
use e_commerce_titulo_interm.Users.Rows.{Address, CreateAddressDto, UpdateAddressDto}
use e_commerce_titulo_interm.Users.Addresses.{create, update, remove, mark_default}
use e_commerce_titulo_interm.Users.DefaultAddress.{IsBook, mark_default-IsBook, update-IsBook}
use e_commerce_titulo_interm.Users.Removal.{remove-IsBook}
use e_commerce_titulo_interm.Users.NewAddress.{create-IsBook}

-- A call that returns, by any customer. An insert has a new key; an update does not take the mark
-- off a default address.
pub data AddressCall : List Address → List Address → Type 0 where
  created :
      (user_id id : ℕ) (dto : CreateAddressDto) (addresses : List Address)
      → All (λ a. a.id ≢ id) addresses
      → AddressCall addresses (create id user_id dto addresses)
  updated :
      (user_id id : ℕ) (dto : UpdateAddressDto) (addresses left : List Address)
      → dto.is_default ≢ some false
      → update user_id id dto addresses ≡ ok left
      → AddressCall addresses left
  removed :
      (user_id id : ℕ) (next : Option ℕ) (addresses left : List Address)
      → remove user_id id next addresses ≡ ok left
      → AddressCall addresses left
  marked :
      (user_id id : ℕ) (addresses left : List Address)
      → mark_default user_id id addresses ≡ ok left
      → AddressCall addresses left

-- Calls one after another.
pub data AddressCalls : List Address → List Address → Type 0 where
  done : (addresses : List Address) → AddressCalls addresses addresses
  then_call :
      (first second last : List Address)
      → AddressCall first second
      → AddressCalls second last
      → AddressCalls first last

call-IsBook :
    (v : ℕ) (first second : List Address)
    → AddressCall first second
    → IsBook v first
    → IsBook v second
call-IsBook v first second (created user_id id dto addresses fresh) book =
    create-IsBook v user_id id dto addresses fresh book
call-IsBook v first second (updated user_id id dto addresses left wish e) book =
    subst (IfOk (IsBook v)) e (update-IsBook v user_id id dto addresses wish book)
call-IsBook v first second (removed user_id id next addresses left e) book =
    subst (IfOk (IsBook v)) e (remove-IsBook v user_id id next addresses book)
call-IsBook v first second (marked user_id id addresses left e) book =
    subst (IfOk (IsBook v)) e (mark_default-IsBook v user_id id addresses book)

-- In a table of addresses with distinct keys where a customer has one default address at most,
-- and one as soon as there is an active address, the same holds after any sequence of calls of
-- create, update, remove and markDefault that return, by any customers, if inserts have new keys
-- and no update sets isDefault to false.
pub AddressCalls-IsBook :
    (v : ℕ) (first last : List Address) → AddressCalls first last → IsBook v first → IsBook v last
AddressCalls-IsBook v first last (done addresses) book = book
AddressCalls-IsBook v first last (then_call f second l call rest) book =
    AddressCalls-IsBook v second l rest (call-IsBook v f second call book)
