-- ===== src/Users/Rows.antt =====
-- backend/src/modules/users/entities/address.entity.ts and the data that a request brings
-- (backend/src/modules/users/dto).
use e_commerce_titulo_interm.Common.{ℕ, Bool, Option}
use Prim.Native.String.{String}

-- `Address`
pub record Address : Type 0 where
  pub id : ℕ
  pub user_id : ℕ
  pub alias : String
  pub street : String
  pub number : String
  pub floor_apt : Option String
  pub city : String
  pub province : String
  pub postal_code : String
  pub phone : String
  pub notes : Option String
  pub is_default : Bool
  pub is_active : Bool

-- `CreateAddressDto`
pub record CreateAddressDto : Type 0 where
  pub alias : String
  pub street : String
  pub number : String
  pub floor_apt : Option String
  pub city : String
  pub province : String
  pub postal_code : String
  pub phone : String
  pub notes : Option String
  pub is_default : Option Bool

-- `UpdateAddressDto`: a field that the request leaves out is none.
pub record UpdateAddressDto : Type 0 where
  pub alias : Option String
  pub street : Option String
  pub number : Option String
  pub floor_apt : Option String
  pub city : Option String
  pub province : Option String
  pub postal_code : Option String
  pub phone : Option String
  pub notes : Option String
  pub is_default : Option Bool
