-- ===== src/BulkStore/Laws.antt =====
-- Where the leads are that the gathering store acknowledged (internal/sink/mongo_bulk.go).
use bidshard_lead_miner.Common.{
  Bool, true, false, ◌||◌, List, [], ◌∷◌, Option, none, some, String, string_discrete, elem, ◌≡◌,
}
use bidshard_lead_miner.BulkStore.{Flight, BulkStore}

-- Whether a lead is in a batch that is being written.
unfoldable pub is_flying : String → List Flight → Bool
is_flying id [] = false
is_flying id (f ∷ flights) = elem string_discrete id f.leads || is_flying id flights

-- Whether a flight's caller is one of its leads.
abbrev Brings : Option String → List String → Type 0
Brings none leads = Unit
Brings (some id) leads = elem string_discrete id leads ≡ true

unfoldable BringAll : List Flight → Type 0
BringAll [] = Unit
BringAll (f ∷ flights) = Brings f.caller f.leads × BringAll flights

abbrev is_somewhere : BulkStore → String → Bool
is_somewhere b id =
    elem string_discrete id b.batch
    || is_flying id b.flying
    || elem string_discrete id b.inner
    || elem string_discrete id b.lost

record Inv (b : BulkStore) : Type 0 where
  somewhere :
      (id : String) → elem string_discrete id b.acknowledged ≡ true → is_somewhere b id ≡ true
  callers : BringAll b.flying
