-- ===== src/Policy/Store/Updates.antt =====
-- What an update leaves in memory and in the file.
use citadel_dnxproxy.Prelude.{◌≡◌, ◌≢◌, Option, none, some, arith}
use citadel_dnxproxy.Policy.Types.{PolicyData}
use citadel_dnxproxy.Policy.Store.{StoreError, JsonStore, update_mutate}

pub update_mutate-file :
    (write : PolicyData → Option StoreError) (fn : PolicyData → PolicyData × Option StoreError)
    (s : JsonStore)
    → (fn s.contents).1 ≡ none
    → let (s', e) = update_mutate write fn s in
      (s'.contents ≡ (fn s.contents).0)
      × ((e ≡ write s'.contents)
          × (e ≡ none → s'.file ≡ some s'.contents)
          × (e ≢ none → s'.file ≡ s.file))
unfolding update_mutate
update_mutate-file write fn s h = ground arith

-- The data after an update is what the mutation made of it.
pub contents-update_mutate :
    (write : PolicyData → Option StoreError) (fn : PolicyData → PolicyData × Option StoreError)
    (s : JsonStore)
    → (update_mutate write fn s).0.contents ≡ (fn s.contents).0
unfolding update_mutate
contents-update_mutate write fn s = ground arith
