-- ===== src/Policy/Store.antt =====
-- `JSONStore` of internal/policy/store.go: the data in memory and in the file, where there is one.
-- `write` is what marshalling, writing and renaming the file comes to: `none`, or an error.
pub mod Updates
use citadel_dnxproxy.Prelude.{Option, none, some}
use citadel_dnxproxy.Text.{Text}
use citadel_dnxproxy.Policy.Types.{PolicyData}

-- What an update function or the file system may report.
pub data StoreError : Type 0 where
  mutation_failed : Text → StoreError
  write_failed : StoreError

pub record JsonStore : Type 0 where
  pub contents : PolicyData
  pub file : Option PolicyData

module _ (write : PolicyData → Option StoreError) where
  abbrev written : JsonStore → Option StoreError → JsonStore × Option StoreError
  written s none = (record s { file = some s.contents }, none)
  written s (some e) = (s, some e)

  -- What follows the mutation: an error of it ends the update with what it changed still in memory.
  abbrev after_mutation : JsonStore → Option StoreError → JsonStore × Option StoreError
  after_mutation s none = written s (write s.contents)
  after_mutation s (some e) = (s, some e)

  unfoldable pub update_mutate :
      (PolicyData → PolicyData × Option StoreError) → JsonStore → JsonStore × Option StoreError
  update_mutate fn s = let (d, e) = fn s.contents in after_mutation (record s { contents = d }) e
