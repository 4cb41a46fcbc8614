-- ===== src/HashMap/Device.antt =====
-- `entry_read` and `entry_write`, the same in both modules, over the map's operations: the file
-- operations of /proc/example/hello. The file offset, which each call increments and nothing reads,
-- is left out.
use linux_programming.Prelude.{ℕ, Bool, true, false, Option, none, some, ◌==◌, if◌then◌else◌}
use linux_programming.HashMap.{Store, get}

-- `struct hello_entry_param`
pub record Param : Type 0 where
  pub operation : ℕ
  pub key : ℕ
  pub value : ℕ

-- `sizeof(struct hello_entry_param)`
abbrev pub param_size : ℕ
param_size = 24

-- `enum hello_entry_operation`
abbrev pub hello_entry_get : ℕ
hello_entry_get = 0

abbrev pub hello_entry_insert : ℕ
hello_entry_insert = 1

abbrev pub hello_entry_remove : ℕ
hello_entry_remove = 2

module _ {W : Type 0} (insert : ℕ → ℕ → Store W → Option ℕ × Store W)
    (remove : ℕ → Store W → Option ℕ × Store W) where
  -- `entry_write` after `copy_from_user`.
  unfoldable pub write_param : Param → Store W → Option ℕ × Store W
  write_param p s =
      if p.operation == hello_entry_insert
      then insert p.key p.value s
      else if p.operation == hello_entry_remove
      then remove p.key s
      else (none, s)

  -- `user` is what the buffer of the process holds; `none` is a buffer that cannot be read.
  unfoldable pub entry_write : ℕ → Option Param → Store W → Option ℕ × Store W
  entry_write size none s = (none, s)
  entry_write size (some p) s = if size == param_size then write_param p s else (none, s)

-- `entry_read` after `pe_map_get`. The second component is what the buffer holds afterwards;
-- `writable` is whether `copy_to_user` succeeds.
unfoldable pub answer : Bool → Param → Option ℕ → Option ℕ × Option Param
answer writable p none = (none, some p)
answer true p (some v) = (some 0, some (record p { value = v }))
answer false p (some v) = (none, some p)

unfoldable pub entry_read :
    {W : Type 0} → ℕ → Option Param → Bool → Store W → Option ℕ × Option Param
entry_read size none writable s = (none, none)
entry_read size (some p) writable s =
    if size == param_size
    then if p.operation == hello_entry_get
      then answer writable p (get s.map p.key)
      else (none, some p)
    else (none, some p)
