-- ===== src/Quarantine.antt =====
-- Rows that a pipeline put aside (apps/datacore/src/quarantine.ts, `QuarantineService`; the record type is
-- in apps/datacore/src/domain.ts). New ids and times are arguments; the text of a value, the cleaning of
-- an object's id and `trim` are parameters. The rate is kept as numerator and denominator.
pub mod Laws
mod Tests
use Prim.Native.String
use complete.Base.{
  ℕ, ◌+◌, String, Bool, true, false, not, ◌&&◌, List, [], ◌∷◌, Option, none, some, if◌then◌else◌,
  ◌==◌, str_eq, length,
}
use complete.Json.{Json, null, str, Fields, end, field, prop}
use complete.Store.{Entity, get, put, list}

pub data RowStatus : Type 0 where
  pending reprocessed discarded : RowStatus

pub record Reprocess : Type 0 where
  pub target_key : String
  -- the source field and the property of each entry
  pub mapping : List (String × String)
  pub pk : Option String

pub record QuarantineRow (N : Type 0) : Type 0 where
  pub id : String
  pub tenant_id : String
  pub conn_id : String
  pub dataset : String
  pub raw : Fields N
  pub reason : String
  pub detail : Option String
  pub status : RowStatus
  pub reprocess : Reprocess
  pub created_at : ℕ

instance abbrev pub row_entity : {N : Type 0} → Entity (QuarantineRow N)
row_entity = record { tenant_id = λ r. r.tenant_id; id = λ r. r.id }

-- The properties assigned so far; one that is assigned undefined is there all the same.
abbrev pub Props : Type 0 → Type 0
Props N = List (String × Option (Json N))

pub record ObjectRecord (N : Type 0) : Type 0 where
  pub id : String
  pub tenant_id : String
  pub type : String
  pub props : Props N
  pub dataset_id : String
  pub job_id : String

instance abbrev pub object_entity : {N : Type 0} → Entity (ObjectRecord N)
object_entity = record { tenant_id = λ o. o.tenant_id; id = λ o. o.id }

pub data QuarantineError : Type 0 where
  row_not_found : QuarantineError
  row_not_pending : QuarantineError
  key_missing : String → QuarantineError
  comment_required : QuarantineError

abbrev pub same_status : RowStatus → RowStatus → Bool
same_status pending pending = true
same_status reprocessed reprocessed = true
same_status discarded discarded = true
same_status _ _ = false

abbrev pub is_pending : RowStatus → Bool
is_pending s = same_status s pending

abbrev pub text_or_empty : Option String → String
text_or_empty none = ""
text_or_empty (some s) = s

-- `byReason[q.reason] = (byReason[q.reason] ?? 0) + 1`
abbrev pub count_reason : String → List (String × ℕ) → List (String × ℕ)
count_reason reason [] = (reason, 1) ∷ []
count_reason reason ((r, n) ∷ counts) =
    if str_eq r reason then (r, n + 1) ∷ counts else (r, n) ∷ count_reason reason counts

module _ {N : Type 0} where
  unfoldable pub record_row :
      (tenant id conn dataset : String)
      → Fields N
      → (reason : String) → Option String
      → Reprocess
      → ℕ
      → List (QuarantineRow N)
      → QuarantineRow N × List (QuarantineRow N)
  record_row tenant id conn dataset raw reason detail reprocess now rows =
      let rec : QuarantineRow N = record {
        id = id;
        tenant_id = tenant;
        conn_id = conn;
        dataset = dataset;
        raw = raw;
        reason = reason;
        detail = detail;
        status = pending;
        reprocess = reprocess;
        created_at = now;
      } in
      (rec, put rec rows)

  abbrev pub count_reasons : List (String × ℕ) → List (QuarantineRow N) → List (String × ℕ)
  count_reasons counts [] = counts
  count_reasons counts (q ∷ qs) = count_reasons (count_reason q.reason counts) qs

  -- `list`: the rows, how many there are for each reason, and their number.
  unfoldable pub list_rows :
      String → RowStatus → List (QuarantineRow N) → List (QuarantineRow N) × List (String × ℕ) × ℕ
  list_rows tenant status rows =
      let items = list tenant (λ q. same_status q.status status) rows in
      (items, count_reasons [] items, length items)

  unfoldable pub rate : (tenant conn : String) → ℕ → List (QuarantineRow N) → ℕ × ℕ
  rate tenant conn total rows =
      let n = length (list tenant (λ q. str_eq q.conn_id conn && is_pending q.status) rows) in
      if total == 0 then (0, 1) else (n, total + n)

  -- The edits lie over the row: a lookup finds them first.
  abbrev pub overlay : Fields N → Fields N → Fields N
  overlay end raw = raw
  overlay (field k v edits) raw = field k v (overlay edits raw)

  abbrev pub assign : String → Option (Json N) → Props N → Props N
  assign k v [] = (k, v) ∷ []
  assign k v ((k', v') ∷ ps) = if str_eq k' k then (k', v) ∷ ps else (k', v') ∷ assign k v ps

  abbrev pub map_props : Fields N → List (String × String) → Props N → Props N
  map_props raw [] props = props
  map_props raw ((source, key) ∷ mapping) props =
      map_props raw mapping (assign key (prop source raw) props)

  abbrev pub prop_of : String → Props N → Option (Json N)
  prop_of k [] = none
  prop_of k ((k', v) ∷ ps) = if str_eq k' k then v else prop_of k ps

  -- `props[pk] == null || props[pk] === ""`
  abbrev pub is_missing : Option (Json N) → Bool
  is_missing none = true
  is_missing (some null) = true
  is_missing (some (str s)) = str_eq s ""
  is_missing (some v) = false

  -- The key's error, where the row names a key.
  abbrev pub check_key : Option String → Props N → Option QuarantineError
  check_key none props = none
  check_key (some pk) props =
      if not (str_eq pk "") && is_missing (prop_of pk props) then some (key_missing pk) else none

  abbrev pub suffix : (Json N → String) → String → Option String → Props N → String
  suffix text_of fresh none props = fresh
  suffix text_of fresh (some pk) props = elim (prop_of pk props) [
    | none ↦ fresh
    | some v ↦ if str_eq pk "" then fresh else text_of v
  ]

  -- An object's id, from the target, the connection and the suffix.
  module _ (text_of : Json N → String) (object_id : String → String → String → String) where
    unfoldable pub reprocess :
        (tenant id : String)
        → Fields N
        → (fresh job : String) → List (QuarantineRow N) × List (ObjectRecord N)
        → Option QuarantineError × List (QuarantineRow N) × List (ObjectRecord N)
    reprocess tenant id edits fresh job (rows, objects) = elim (get tenant id rows) [
      | none ↦ (some row_not_found, rows, objects)
      | some rec ↦
          let raw = overlay edits rec.raw in
          let props = map_props raw rec.reprocess.mapping [] in
          let object : ObjectRecord N = record {
            id =
                object_id rec.reprocess.target_key rec.conn_id
                  (suffix text_of fresh rec.reprocess.pk props);
            tenant_id = tenant;
            type = rec.reprocess.target_key;
            props = props;
            dataset_id = rec.conn_id;
            job_id = job;
          } in
          let done = put (record rec { status = reprocessed; raw = raw }) rows in
          if not (is_pending rec.status)
          then (some row_not_pending, rows, objects)
          else elim (check_key rec.reprocess.pk props) [
            | some e ↦ (some e, rows, objects)
            | none ↦ (none, done, put object objects)
          ]
    ]

  abbrev pub discarded_row : String → QuarantineRow N → QuarantineRow N
  discarded_row comment rec = record rec {
    status = discarded;
    detail = some (String.◌++◌ (text_or_empty rec.detail) (String.◌++◌ " | discarded: " comment));
  }

  unfoldable pub discard_one :
      (tenant comment id : String) → List (QuarantineRow N) → ℕ × List (QuarantineRow N)
  discard_one tenant comment id rows = elim (get tenant id rows) [
    | none ↦ (0, rows)
    | some rec ↦
        if is_pending rec.status then (1, put (discarded_row comment rec) rows) else (0, rows)
  ]

  unfoldable pub discard_all :
      (tenant comment : String) → List String → List (QuarantineRow N) → ℕ × List (QuarantineRow N)
  unfolding discard_one
  discard_all tenant comment [] rows = (0, rows)
  discard_all tenant comment (id ∷ ids) rows =
      let (n, rows') = discard_one tenant comment id rows in
      let (m, last) = discard_all tenant comment ids rows' in (n + m, last)

  -- `discard`; none where the comment is blank and it throws.
  unfoldable pub discard :
      (String → Bool)
      → (tenant comment : String) → List String
      → List (QuarantineRow N)
      → Option ℕ × List (QuarantineRow N)
  unfolding discard_all
  discard is_blank tenant comment ids rows =
      let (n, last) = discard_all tenant comment ids rows in
      if is_blank comment then (none, rows) else (some n, last)
