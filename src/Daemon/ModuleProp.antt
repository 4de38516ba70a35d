-- ===== src/Daemon/ModuleProp.antt =====
-- `updateModuleProp`: the description in the module's module.prop, which Magisk shows. A file is its
-- text, and how writing and renaming end is an argument.
pub mod Latest
pub mod Watch
use sshcustom_vpnchain.Base.{
  ◌-◌, Bool, ◌&&◌, Option, none, some, List, [], ◌∷◌, if◌then◌else◌, Bytes, codes, str_eq,
}
use sshcustom_vpnchain.Base.Text.{has_prefix, join}
use sshcustom_vpnchain.Transport.{split_lines}

abbrev pub marker : Bytes
marker = codes "description="

-- The line for a status.
unfoldable pub description : Bytes → Bytes
description status =
    if str_eq status (codes "running")
    then codes "description=[ON] SSHCustom-Magisk - running"
    else if str_eq status (codes "standby")
    then codes "description=[--] SSHCustom-Magisk - standby"
    else codes "description=[OFF] SSHCustom-Magisk - disconnected"

abbrev pub kept_before : Bytes → Option (List Bytes) → Option (List Bytes)
kept_before l none = none
kept_before l (some ls) = some (l ∷ ls)

-- The loop over the lines: the first description is replaced, and `none` is that there is none.
unfoldable pub replace_line : Bytes → List Bytes → Option (List Bytes)
replace_line desc [] = none
replace_line desc (line ∷ lines) =
    let rest = kept_before line (replace_line desc lines) in
    if has_prefix line marker then some (desc ∷ lines) else rest

-- How `os.WriteFile` of the new file and `os.Rename` over the old one end.
pub record Saved : Type 0 where
  pub written : Bool
  pub renamed : Bool

store_lines : Saved → Bytes → Option (List Bytes) → Bytes
store_lines how text none = text
store_lines how text (some lines) =
    if how.written && how.renamed then join lines (codes "\n") else text

-- `updateModuleProp` on a file that can be read: the text that it leaves.
unfoldable pub update_module_prop : Saved → Bytes → Bytes → Bytes
unfolding store_lines replace_line split_lines description
update_module_prop how status text =
    store_lines how text (replace_line (description status) (split_lines text))
