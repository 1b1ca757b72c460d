-- ===== src/Users/Addresses.antt =====
-- backend/src/modules/users/addresses.service.ts: `AddressesService`, over the table of addresses.
use e_commerce_titulo_interm.Common.{
  ℕ, Bool, true, false, Option, none, some, List, [], ◌∷◌, ◌++◌, ◌&&◌, ◌||◌, not, ◌==◌,
  if◌then◌else◌, keep, find, map, Result, ok, err, ◌>>=◌, update_key,
}
use e_commerce_titulo_interm.Errors.{
  ServiceError, address_not_found, new_default_missing, new_default_not_found,
}
use e_commerce_titulo_interm.Users.Rows.{Address, CreateAddressDto, UpdateAddressDto}

-- `manager.save` and `update` name a row by its primary key.
abbrev pub address_key : Address → ℕ
address_key a = a.id

-- `{ userId, isActive: true }`
abbrev pub is_active_of : ℕ → Address → Bool
is_active_of user_id a = a.user_id == user_id && a.is_active

-- `findAllForUser`
abbrev pub find_all_for_user : ℕ → List Address → List Address
find_all_for_user user_id addresses = keep (is_active_of user_id) addresses

-- `{ id: addressId, userId, isActive: true }`
abbrev pub is_owned : ℕ → ℕ → Address → Bool
is_owned user_id id a = a.id == id && is_active_of user_id a

-- `findOwnedActive`
abbrev pub find_owned_active : ℕ → ℕ → List Address → Option Address
find_owned_active user_id id addresses = find (is_owned user_id id) addresses

-- `findOwnedOrFail`
unfoldable pub find_owned_or_fail : ℕ → ℕ → List Address → Result ServiceError Address
find_owned_or_fail user_id id addresses = elim (find_owned_active user_id id addresses) [
  | none ↦ err address_not_found
  | some a ↦ ok a
]

abbrev pub set_default : Bool → Address → Address
set_default b a = record a { is_default = b }

-- What `clearDefault` leaves of a row.
abbrev pub cleared : ℕ → Address → Address
cleared user_id a = if a.user_id == user_id && a.is_default then set_default false a else a

-- `clearDefault`, over every row of the user.
unfoldable pub clear_default : ℕ → List Address → List Address
clear_default user_id addresses = map (cleared user_id) addresses

abbrev pub is_empty : List Address → Bool
is_empty [] = true
is_empty (a ∷ rest) = false

-- `dto.isDefault === true`
abbrev pub asks_default : Option Bool → Bool
asks_default (some true) = true
asks_default wish = false

-- The row that `create` inserts.
abbrev pub new_address : ℕ → ℕ → CreateAddressDto → Bool → Address
new_address id user_id dto default = record {
  id = id;
  user_id = user_id;
  alias = dto.alias;
  street = dto.street;
  number = dto.number;
  floor_apt = dto.floor_apt;
  city = dto.city;
  province = dto.province;
  postal_code = dto.postal_code;
  phone = dto.phone;
  notes = dto.notes;
  is_default = default;
  is_active = true;
}

-- `create`; `id` is the key that the database generates.
unfoldable pub create : ℕ → ℕ → CreateAddressDto → List Address → List Address
unfolding clear_default
create id user_id dto addresses =
    let first = is_empty (find_all_for_user user_id addresses) in
    let default = first || asks_default dto.is_default in
    (if default && not first then clear_default user_id addresses else addresses)
    ++ (new_address id user_id dto default ∷ [])

abbrev pub or_else {ℓ} : {A : Type ℓ} → A → Option A → A
or_else old none = old
or_else old (some new) = new

abbrev pub or_old {ℓ} : {A : Type ℓ} → Option A → Option A → Option A
or_old old none = old
or_old old new = new

-- `Object.assign(address, dto)`
unfoldable pub assign : UpdateAddressDto → Address → Address
assign dto a = record a {
  alias = or_else a.alias dto.alias;
  street = or_else a.street dto.street;
  number = or_else a.number dto.number;
  floor_apt = or_old a.floor_apt dto.floor_apt;
  city = or_else a.city dto.city;
  province = or_else a.province dto.province;
  postal_code = or_else a.postal_code dto.postal_code;
  phone = or_else a.phone dto.phone;
  notes = or_old a.notes dto.notes;
  is_default = or_else a.is_default dto.is_default;
}

-- `save` of a row that was read before `clearDefault` may have run.
abbrev pub save : Address → List Address → List Address
save saved addresses = update_key address_key saved.id (λ row. saved) addresses

-- `update`
unfoldable pub update : ℕ → ℕ → UpdateAddressDto → List Address → Result ServiceError (List Address)
unfolding find_owned_or_fail clear_default assign update_key
update user_id id dto addresses = do
  a ← find_owned_or_fail user_id id addresses
  let cleared =
      if asks_default dto.is_default && not a.is_default
      then clear_default user_id addresses
      else addresses
  ok (save (assign dto a) cleared)

-- The choice of the next default address, when others remain.
unfoldable pub choose_next :
    Option ℕ → List Address → List Address → Result ServiceError (List Address)
unfolding update_key
choose_next new_default_id [] addresses = ok addresses
choose_next none (r ∷ rs) addresses = err new_default_missing
choose_next (some next) (r ∷ rs) addresses = elim (find (λ a. a.id == next) (r ∷ rs)) [
  | none ↦ err new_default_not_found
  | some a ↦ ok (update_key address_key a.id (set_default true) addresses)
]

-- What `remove` does first if the address is the default one.
abbrev pub hand_over : Bool → ℕ → ℕ → Option ℕ → List Address → Result ServiceError (List Address)
hand_over true user_id id next addresses =
    choose_next next (keep (λ a. not (a.id == id)) (find_all_for_user user_id addresses)) addresses
hand_over false user_id id next addresses = ok addresses

-- `address.isActive = false; address.isDefault = false`
abbrev pub retired : Address → Address
retired a = record a { is_active = false; is_default = false }

-- `remove`
unfoldable pub remove : ℕ → ℕ → Option ℕ → List Address → Result ServiceError (List Address)
unfolding find_owned_or_fail choose_next update_key
remove user_id id next addresses = do
  a ← find_owned_or_fail user_id id addresses
  handed ← hand_over a.is_default user_id id next addresses
  ok (save (retired a) handed)

-- `markDefault`
unfoldable pub mark_default : ℕ → ℕ → List Address → Result ServiceError (List Address)
unfolding find_owned_or_fail clear_default update_key
mark_default user_id id addresses = do
  a ← find_owned_or_fail user_id id addresses
  ok (save (set_default true a) (clear_default user_id addresses))
