-- ===== src/Quarantine/Tests.antt =====
-- A discarded row (apps/datacore/src/quarantine.ts).
use complete.Base.{ℕ, false, [], ◌∷◌, none, some, ◌≡◌, refl}
use complete.Json.{end}
use complete.Store.{find_key, mem_key}
use complete.Quarantine.{discarded, QuarantineRow, row_entity, reprocess, discard}
use complete.Quarantine.Laws.{leaves_once}

abbrev dropped : QuarantineRow ℕ
dropped = record {
  id = "q";
  tenant_id = "t";
  conn_id = "c";
  dataset = "d";
  raw = end;
  reason = "UNIT";
  detail = none;
  status = discarded;
  reprocess = record { target_key = "Order"; mapping = []; pk = none };
  created_at = 0;
}

found_dropped : find_key (mem_key "t" "q") (dropped ∷ []) ≡ some dropped
unfolding find_key mem_key
found_dropped = refl

leaves_once_example :
    (find_key (mem_key "t" "q") (discard (λ s. false) "t" "again" ("q" ∷ []) (dropped ∷ [])).1
      ≡ some dropped)
    × (find_key
          (mem_key "t" "q")
          (reprocess (λ v. "v") (λ a b c. a) "t" "q" end "fresh" "job" (dropped ∷ [], [])).1
        ≡ some dropped)
leaves_once_example =
    leaves_once (mem_key "t" "q") dropped (dropped ∷ []) [] (λ s. false) (λ v. "v") (λ a b c. a) "t"
      "again" "q" "fresh" "job" ("q" ∷ []) end found_dropped refl
