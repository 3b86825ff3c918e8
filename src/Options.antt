-- ===== src/Options.antt =====
-- utils/Options.h and utils/Options.cpp: the ids of the hosts. `words` are the words of the hosts file.
-- The command line, the port and the name of the machine are not part of the state.
pub mod Ids
use raftfs.Prelude.{
  ℕ, ◌+◌, Bool, true, false, List, [], ◌∷◌, ◌++◌, Option, none, some, if◌then◌else◌, text_eq,
  update,
}
use raftfs.Protocol.{Text}

-- `self_id` has no value until `GetHosts` finds the own name.
pub record Options : Type 0 where
  pub self_name : Text
  pub self_id : Option ℕ
  pub hosts : ℕ → Option Text
  pub all_hosts : List Text

-- The loop of `GetHosts`, with its `id` and `found_self`.
unfoldable pub number_hosts : List Text → ℕ → Bool → Options → Options × Bool
number_hosts [] id found_self o = (o, found_self)
number_hosts (h ∷ words) id found_self o =
    let own = number_hosts words (id + 1) true (record o { self_id = some id }) in
    let other =
      number_hosts words (id + 1) found_self (record o { hosts = update o.hosts id (some h) }) in
    if text_eq h o.self_name then own else other

-- `GetHosts`; `none` is the exit of the program.
unfoldable pub get_hosts : List Text → Options → Option Options
get_hosts words o =
    let (o', found_self) = number_hosts words 1 false o in if found_self then some o' else none

unfoldable pub get_all_hosts : List Text → Options → Options
get_all_hosts words o = elim o.all_hosts [ [] ↦ record o { all_hosts = words } | _ ∷ _ ↦ o ]
