-- ===== src/Bots/Value.antt =====
-- The values of JavaScript that a rule meets. A number is a parameter: what the code does with one is to
-- compare it, to print it and to read it from a text.
use mqtt_chat.Base.{ℕ, suc, String, Option, none, some, Bool, if◌then◌else◌, ◌==◌, string_eq}

pub record Numbers : Type 1 where
  pub Number : Type 0
  pub same : Number → Number → Bool
  pub less : Number → Number → Bool
  -- `String(n)`
  pub print : Number → String
  -- `Number(s)`, where that is finite
  pub read : String → Option Number
  pub of_nat : ℕ → Number

mutual
  pub data Value (N : Type 0) : Type 0 where
    undefined null : Value N
    boolean : Bool → Value N
    number : N → Value N
    string : String → Value N
    array : Items N → Value N
    object : Fields N → Value N

  pub data Items (N : Type 0) : Type 0 where
    nil : Items N
    cons : Value N → Items N → Items N

  pub data Fields (N : Type 0) : Type 0 where
    empty : Fields N
    field : String → Value N → Fields N → Fields N

module _ {N : Type 0} where
  abbrev pub own_field : String → Fields N → Option (Value N)
  own_field key empty = none
  own_field key (field k v rest) = if k == key then some v else own_field key rest

  abbrev pub item_count : Items N → ℕ
  item_count nil = 0
  item_count (cons v vs) = suc (item_count vs)

  -- `record[key] = value`.
  abbrev pub set_field : String → Value N → Fields N → Fields N
  set_field key v empty = field key v empty
  set_field key v (field k w rest) =
      let kept = set_field key v rest in if k == key then field k v rest else field k w kept

  -- `const { [key]: _removed, ...rest } = record`.
  abbrev pub without_field : String → Fields N → Fields N
  without_field key empty = empty
  without_field key (field k v rest) =
      let kept = without_field key rest in if k == key then kept else field k v kept
