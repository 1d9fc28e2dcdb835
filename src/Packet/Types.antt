-- ===== src/Packet/Types.antt =====
-- UserTypes.h: the records of a user's account, with the values that their members start from.
use outgame_lobby_server.Prelude.{ℕ, [], Bytes, replicate}
use outgame_lobby_server.Packet.{max_user_id_len}

abbrev pub max_friend_size : ℕ
max_friend_size = 50

abbrev pub max_inventory_size : ℕ
max_inventory_size = 100

abbrev pub max_user_password_len : ℕ
max_user_password_len = 256

-- `struct Costume`
pub record Costume : Type 0 where
  pub head : ℕ
  pub body : ℕ
  pub legs : ℕ
  pub feet : ℕ

abbrev pub new_costume : Costume
new_costume = record { head = 0; body = 0; legs = 0; feet = 0 }

-- `struct UserInfo`
pub record UserInfo : Type 0 where
  pub user_id : Bytes
  pub exp : ℕ
  pub level : ℕ

abbrev pub new_user_info : UserInfo
new_user_info = record { user_id = []; exp = 0; level = 1 }

-- `struct Currency`
pub record Currency : Type 0 where
  pub bp : ℕ
  pub gcoin : ℕ

abbrev pub new_currency : Currency
new_currency = record { bp = 0; gcoin = 0 }

-- `struct InventoryItem`
pub record InventoryItem : Type 0 where
  pub item_code : ℕ
  pub quantity : ℕ
  pub item_type : ℕ

abbrev pub new_inventory_item : InventoryItem
new_inventory_item = record { item_code = 0; quantity = 0; item_type = 0 }

-- `struct FriendInfo`
pub record FriendInfo : Type 0 where
  pub friend_id : Bytes
  pub friend_status : ℕ
  pub online_status : ℕ

abbrev pub new_friend_info : FriendInfo
new_friend_info = record {
  friend_id = replicate max_user_id_len 0;
  friend_status = 0;
  online_status = 0;
}

-- `struct FriendInfoDB`
pub record FriendInfoDb : Type 0 where
  pub friend_pk : ℕ
  pub friend_id : Bytes
  pub friend_status : ℕ

abbrev pub new_friend_info_db : FriendInfoDb
new_friend_info_db = record {
  friend_pk = 0;
  friend_id = replicate max_user_id_len 0;
  friend_status = 0;
}
