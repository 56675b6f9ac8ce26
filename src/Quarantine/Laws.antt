-- ===== src/Quarantine/Laws.antt =====
-- Rows leave the quarantine once (apps/datacore/src/quarantine.ts, `reprocess` and `discard`).
use complete.Base.{
  inl, inr, String, Bool, true, false, List, [], ◌∷◌, some, ◌≡◌, ◌∙◌, refl, sym, arith, Bool-cases,
  Option-cases, str_eq, eq_iff,
}
use complete.Json.{Json, Fields}
use complete.Store.{find_key, key_of, mem_key, get, put}
use complete.Store.Laws.{find_key-put, find_key-key}
use complete.Quarantine.{
  reprocessed, QuarantineRow, row_entity, ObjectRecord, is_pending, reprocess, discard_one,
  discard_all, discard, discarded_row, overlay,
}

module _ {N : Type 0} where
  -- A write over a pending row leaves every row that is not pending.
  other_row :
      (k k' : String) (r rec x : QuarantineRow N) (rows : List (QuarantineRow N))
      → find_key k rows ≡ some r
      → is_pending r.status ≡ false
      → find_key k' rows ≡ some rec
      → is_pending rec.status ≡ true
      → key_of x ≡ key_of rec
      → find_key k (put x rows) ≡ some r
  other_row k k' r rec x rows found closed found' open_ same =
      elim (Bool-cases (str_eq (key_of x) k)) [
        | inl e ↦
            let here : k' ≡ k =
              sym (find_key-key k' rows rec found') ∙ (sym same ∙ (eq_iff (key_of x) k).0 e) in
            let is_row : rec ≡ r = cc in absurd (ground (arith, is_row))
        | inr e ↦ rw (find_key-put k x rows) (rw e found)
      ]

  discard_one-closed :
      (tenant comment id k : String) (r : QuarantineRow N) (rows : List (QuarantineRow N))
      → find_key k rows ≡ some r
      → is_pending r.status ≡ false
      → find_key k (discard_one tenant comment id rows).1 ≡ some r
  unfolding discard_one
  discard_one-closed tenant comment id k r rows found closed =
      elim (Option-cases (get tenant id rows)) [
        | inl e ↦ rw (discard_one, e) found
        | inr (rec, e) ↦ elim (Bool-cases (is_pending rec.status)) [
          | inl p ↦
              rw (discard_one, e, p)
                (other_row k (mem_key tenant id) r rec (discarded_row comment rec) rows found closed
                  e p refl)
          | inr p ↦ rw (discard_one, e, p) found
        ]
      ]

  discard_all-closed :
      (tenant comment k : String) (r : QuarantineRow N) (ids : List String)
      (rows : List (QuarantineRow N))
      → find_key k rows ≡ some r
      → is_pending r.status ≡ false
      → find_key k (discard_all tenant comment ids rows).1 ≡ some r
  unfolding discard_all
  discard_all-closed tenant comment k r [] rows found closed = found
  discard_all-closed tenant comment k r (id ∷ ids) rows found closed =
      discard_all-closed tenant comment k r ids (discard_one tenant comment id rows).1
        (discard_one-closed tenant comment id k r rows found closed) closed

  -- A row that was reprocessed or discarded is never changed again: neither a discarding of any rows,
  -- with or without a comment, nor a reprocessing of any row touches it.
  pub leaves_once :
      (k : String) (r : QuarantineRow N) (rows : List (QuarantineRow N))
      (objects : List (ObjectRecord N)) (is_blank : String → Bool) (text_of : Json N → String)
      (object_id : String → String → String → String) (tenant comment id fresh job : String)
      (ids : List String) (edits : Fields N)
      → find_key k rows ≡ some r
      → is_pending r.status ≡ false
      → (find_key k (discard is_blank tenant comment ids rows).1 ≡ some r)
        × (find_key k (reprocess text_of object_id tenant id edits fresh job (rows, objects)).1
            ≡ some r)
  unfolding discard reprocess
  leaves_once k r rows objects is_blank text_of object_id tenant comment id fresh job ids edits
        found closed =
      (
        elim (Bool-cases (is_blank comment)) [
          | inl e ↦ rw (discard, e) found
          | inr e ↦ rw (discard, e) (discard_all-closed tenant comment k r ids rows found closed)
        ],
        elim (Option-cases (get tenant id rows)) [
          | inl e ↦ rw (reprocess, e) found
          | inr (rec, e) ↦ elim (Bool-cases (is_pending rec.status)) [
            | inl p ↦
                let x = record rec { status = reprocessed; raw = overlay edits rec.raw } in
                ground (
                  arith,
                  e,
                  p,
                  found,
                  other_row k (mem_key tenant id) r rec x rows found closed e p refl,
                )
            | inr p ↦ ground (arith, e, p, found)
          ]
        ],
      )
