-- ===== src/Action/Values.antt =====
-- A map[string]any and a []any inside an unstructured object, as Go's map and slice operations read
-- and change them. A field that is there twice cannot arise from them; the first one is read.
use reactive_policy.Common.{
  ℕ, zero, suc, String, Option, none, some, str_eq, eq_iff, if◌then◌else◌, ◌≡◌, refl, arith,
}
use reactive_policy.Action.Types.{Value, Items, Fields}

-- value, ok := m[key]
unfoldable pub member : String → Fields → Option Value
member key Fields.end = none
member key (Fields.field here value rest) = if str_eq here key then some value else member key rest

-- m[key] = value
unfoldable pub put_member : String → Value → Fields → Fields
put_member key value Fields.end = Fields.field key value Fields.end
put_member key value (Fields.field here old rest) =
    if str_eq here key
    then Fields.field here value rest
    else Fields.field here old (put_member key value rest)

-- delete(m, key)
unfoldable pub delete_member : String → Fields → Fields
delete_member key Fields.end = Fields.end
delete_member key (Fields.field here value rest) =
    if str_eq here key
    then delete_member key rest
    else Fields.field here value (delete_member key rest)

-- v[i], where it is in range
abbrev pub item : ℕ → Items → Option Value
item i Items.nil = none
item zero (Items.cons x xs) = some x
item (suc i) (Items.cons x xs) = item i xs

-- v[i] = value
abbrev pub set_item : ℕ → Value → Items → Items
set_item i value Items.nil = Items.nil
set_item zero value (Items.cons x xs) = Items.cons value xs
set_item (suc i) value (Items.cons x xs) = Items.cons x (set_item i value xs)

pub member-put_member :
    (key here : String) (value : Value) (m : Fields)
    → member here (put_member key value m) ≡ (if str_eq key here then some value else member here m)
unfolding member put_member
member-put_member key here value Fields.end = refl
member-put_member key here value (Fields.field other old rest) = ground (
  arith,
  eq_iff key here,
  eq_iff other key,
  eq_iff other here,
  member-put_member key here value rest,
)

-- What was there is put back.
pub put_member-put_member :
    (key : String) (value old : Value) (m : Fields)
    → member key m ≡ some old
    → put_member key old (put_member key value m) ≡ m
unfolding member put_member
put_member-put_member key value old Fields.end h = ground arith
put_member-put_member key value old (Fields.field here other rest) h =
    ground (arith, put_member-put_member key value old rest)

pub put_member_self :
    (key : String) (old : Value) (m : Fields) → member key m ≡ some old → put_member key old m ≡ m
unfolding member put_member
put_member_self key old Fields.end h = ground arith
put_member_self key old (Fields.field here other rest) h =
    ground (arith, put_member_self key old rest)

pub put_member_twice :
    (key : String) (value old : Value) (m : Fields)
    → put_member key old (put_member key value m) ≡ put_member key old m
unfolding put_member
put_member_twice key value old Fields.end = ground (arith, eq_iff key key)
put_member_twice key value old (Fields.field here other rest) =
    ground (arith, put_member_twice key value old rest)

delete_member-absent : (key : String) (m : Fields) → member key m ≡ none → delete_member key m ≡ m
unfolding member delete_member
delete_member-absent key Fields.end h = refl
delete_member-absent key (Fields.field here other rest) h =
    ground (arith, delete_member-absent key rest)

-- What was not there is taken away.
pub delete_member-put_member :
    (key : String) (value : Value) (m : Fields)
    → member key m ≡ none
    → delete_member key (put_member key value m) ≡ m
unfolding member put_member delete_member
delete_member-put_member key value Fields.end h = ground (arith, eq_iff key key)
delete_member-put_member key value (Fields.field here other rest) h =
    ground (arith, delete_member-put_member key value rest)
