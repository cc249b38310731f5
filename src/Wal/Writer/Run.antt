-- ===== src/Wal/Writer/Run.antt =====
-- A run of the writer, from its opening on.
use mathlib.Core.List.{map}
use kvstore.Prelude.{
  ℕ, zero, suc, ◌+◌, ◌%◌, ◌^◌, ◌<◌, ◌≤◌, ◌≡◌, refl, ap, sym, subst, ◌∙◌, true, Option, none, List,
  [], ◌∷◌, ◌++◌, append_assoc, arith, ltb, ◌==◌, length, length-append, take, drop,
  take-append-drop, All, Bool-cases, Option-cases, inl, inr,
}
use kvstore.Wal.Record.{Record, valid, max_key_len, max_val_len, rec_segment_hdr}
use kvstore.Wal.Record.RoundTrip.{InRange}
use kvstore.Wal.Writer.{Io, Options, Writer, stamp, open_new, submit, run_once, sync, tick}
use kvstore.Wal.Writer.Written.{listed, All-append, Holds, open_new-Holds}
use kvstore.Wal.Writer.Flush.{flush_batch-Flushed, flush_batch-Rest}

-- The fields of a Go record.
pub record IsRecord (r : Record) : Type 0 where
  pub created_fits : r.created_at_ms < 2 ^ 64
  pub flags_fit : r.flags < 256
  pub expire_fits : r.expire_at_ms < 2 ^ 64

-- The writer's steps, with the records that Submit has accepted so far. A flush takes any number
-- of records from the queue.
pub data Run {ℓ} {X : Type ℓ} (path_of : ℕ → List ℕ) (start : ℕ)
    : Writer X → List Record → Type ℓ where
  opens :
      (o : Options) (now : ℕ)
      → start < 2 ^ 64
      → now < 2 ^ 64
      → Run path_of start (open_new path_of o start now) []
  submits :
      {w : Writer X} {rs : List Record} (r : Record) (now : ℕ)
      → IsRecord r
      → now < 2 ^ 64
      → w.next_lsn + 1 < 2 ^ 64
      → (submit w r now).1 ≡ none
      → Run path_of start w rs
      → Run path_of start (submit w r now).0 (rs ++ (stamp r w.next_lsn now ∷ []))
  flushes :
      {w : Writer X} {rs : List Record} (n : ℕ) (io : Io X)
      → io.now_ms < 2 ^ 64
      → Run path_of start w rs
      → Run path_of start (run_once path_of w n io) rs
  syncs :
      {w : Writer X} {rs : List Record} (e : Option X)
      → Run path_of start w rs
      → Run path_of start (sync w e).0 rs
  ticks :
      {w : Writer X} {rs : List Record} (e : Option X)
      → Run path_of start w rs
      → Run path_of start (tick w e) rs

-- Numbers one after another.
abbrev pub Numbered : ℕ → List Record → Type 0
Numbered n [] = Unit {0}
Numbered n (r ∷ rs) = (r.lsn ≡ n) × Numbered (n + 1) rs

Numbered-snoc :
    (rs : List Record) (n : ℕ) (r : Record)
    → Numbered n rs
    → r.lsn ≡ n + length rs
    → Numbered n (rs ++ (r ∷ []))
Numbered-snoc [] n r h e = (omega arith, tt)
Numbered-snoc (q ∷ rs) n r h e = (h.0, Numbered-snoc rs (n + 1) r h.1 (omega arith))

pub All-take {ℓ κ} :
    {A : Type ℓ} (P : A → Type κ) (n : ℕ) (xs : List A) → All P xs → All P (take n xs)
All-take P zero xs h = tt
All-take P (suc n) [] h = tt
All-take P (suc n) (x ∷ xs) h = (h.0, All-take P n xs h.1)

All-drop {ℓ κ} : {A : Type ℓ} (P : A → Type κ) (n : ℕ) (xs : List A) → All P xs → All P (drop n xs)
All-drop P zero xs h = h
All-drop P (suc n) [] h = tt
All-drop P (suc n) (x ∷ xs) h = All-drop P n xs h.1

stamp-InRange :
    (r : Record) (lsn now : ℕ)
    → IsRecord r
    → now < 2 ^ 64
    → lsn < 2 ^ 64
    → (length r.key ≤ max_key_len)
    → (length r.value ≤ max_val_len)
    → valid r.rec_type ≡ true
    → InRange (stamp r lsn now)
unfolding stamp
stamp-InRange r lsn now i n l k v t = record {
  lsn_fits = l;
  created_fits = ground arith;
  type_known = t;
  flags_fit = i.flags_fit;
  key_fits = k;
  value_fits = v;
  expire_fits = i.expire_fits;
}

module _ {ℓ} {X : Type ℓ} where
  -- What a run keeps, and, while no error is set, what the directory holds.
  pub record Keeps (start : ℕ) (w : Writer X) (rs : List Record) : Type ℓ where
    pub numbered : Numbered start rs
    pub next : w.next_lsn ≡ start + length rs
    pub queue_fits : All InRange w.queue
    pub flushed : w.fatal ≡ none → (fs : List Record) × (fs ++ w.queue ≡ rs) × Holds w fs

  abbrev pub queued : Writer X → Record → ℕ → Writer X
  queued w r now = record w {
    next_lsn = (w.next_lsn + 1) % 2 ^ 64;
    queue = w.queue ++ (stamp r w.next_lsn now ∷ []);
  }

  pub submit_accepted :
      (w : Writer X) (r : Record) (now : ℕ)
      → (submit w r now).1 ≡ none
      → (w.fatal ≡ none)
        × (length r.key ≤ max_key_len)
        × (length r.value ≤ max_val_len)
        × (valid r.rec_type ≡ true)
        × ((submit w r now).0 ≡ queued w r now)
  unfolding submit
  submit_accepted w r now e = elim (Bool-cases w.closed) [
    | inl c ↦ absurd (let d = (rw (c, submit) at e) in cc)
    | inr c ↦ elim (Option-cases w.fatal) [
      | inr (x, f) ↦ absurd (let d = (rw (c, f, submit) at e) in cc)
      | inl f ↦ elim (Bool-cases (ltb max_key_len (length r.key))) [
        | inl k ↦ absurd (let d = (rw (c, f, k, submit) at e) in cc)
        | inr k ↦ elim (Bool-cases (ltb max_val_len (length r.value))) [
          | inl v ↦ absurd (let d = (rw (c, f, k, v, submit) at e) in cc)
          | inr v ↦ elim (Bool-cases (valid r.rec_type)) [
            | inr t ↦ absurd (let d = (rw (c, f, k, v, t, submit) at e) in cc)
            | inl t ↦ elim (Bool-cases (r.rec_type == rec_segment_hdr)) [
              | inl q ↦ absurd (let d = (rw (c, f, k, v, t, q, submit) at e) in cc)
              | inr q ↦ (f, ground arith, ground arith, t, ground arith)
            ]
          ]
        ]
      ]
    ]
  ]

  submits-Keeps :
      (start : ℕ) (w : Writer X) (rs : List Record) (r : Record) (now : ℕ)
      → IsRecord r
      → now < 2 ^ 64
      → w.next_lsn + 1 < 2 ^ 64
      → (submit w r now).1 ≡ none
      → Keeps start w rs
      → Keeps start (submit w r now).0 (rs ++ (stamp r w.next_lsn now ∷ []))
  unfolding stamp
  submits-Keeps start w rs r now i n l e h =
      let (clean, k, v, t, same) = submit_accepted w r now e in
      let fits = stamp-InRange r w.next_lsn now i n (omega arith) k v t in
      rw same (record {
        numbered = Numbered-snoc rs start (stamp r w.next_lsn now) h.numbered h.next;
        next = omega (arith, h.next, length-append rs (stamp r w.next_lsn now ∷ []));
        queue_fits =
            All-append InRange w.queue (stamp r w.next_lsn now ∷ []) h.queue_fits (fits, tt);
        flushed = λ z.
            let (fs, all, held) = h.flushed z in
            (
              fs,
              sym (append_assoc fs w.queue (stamp r w.next_lsn now ∷ []))
                  ∙ ap (λ q. q ++ (stamp r w.next_lsn now ∷ [])) all,
              record {
                others = held.others;
                last = held.last;
                others_listed = held.others_listed;
                last_listed = held.last_listed;
                others_whole = held.others_whole;
                last_whole = held.last_whole;
                contents = held.contents;
                finished = held.finished;
              },
            );
      })

  -- The records that are written do not depend on the rest of the writer's state.
  moved_Holds :
      (w v : Writer X) (rs : List Record)
      → v.older ≡ w.older
      → listed v.seg ≡ listed w.seg
      → v.finished ≡ w.finished
      → Holds w rs
      → Holds v rs
  moved_Holds w v rs o g f held = record {
    others = held.others;
    last = held.last;
    others_listed = ap (map listed) o ∙ held.others_listed;
    last_listed = g ∙ held.last_listed;
    others_whole = held.others_whole;
    last_whole = held.last_whole;
    contents = held.contents;
    finished = f ∙ held.finished;
  }

  flushes-Keeps :
      (path_of : ℕ → List ℕ) (start : ℕ) (w : Writer X) (rs : List Record) (n : ℕ) (io : Io X)
      → io.now_ms < 2 ^ 64
      → Keeps start w rs
      → Keeps start (run_once path_of w n io) rs
  unfolding run_once
  flushes-Keeps path_of start w rs n io l h =
      let v : Writer X = record w { queue = drop n w.queue } in
      let (q, nx) = flush_batch-Rest path_of v (take n w.queue) io in
      record {
        numbered = h.numbered;
        next = nx ∙ h.next;
        queue_fits = subst (All InRange) (sym q) (All-drop InRange n w.queue h.queue_fits);
        flushed = λ z.
            let (clean, adds) =
              flush_batch-Flushed path_of v (take n w.queue) io
                (All-take InRange n w.queue h.queue_fits) l z in
            let (fs, all, held) = h.flushed clean in
            (
              fs ++ take n w.queue,
              ap (λ x. (fs ++ take n w.queue) ++ x) q
                  ∙ append_assoc fs (take n w.queue) (drop n w.queue)
                  ∙ ap (λ x. fs ++ x) (take-append-drop n w.queue)
                  ∙ all,
              adds fs (moved_Holds w v fs refl refl refl held),
            );
      }

  -- A step that writes nothing and clears no error.
  settled-Keeps :
      (start : ℕ) (w v : Writer X) (rs : List Record)
      → v.older ≡ w.older
      → listed v.seg ≡ listed w.seg
      → v.finished ≡ w.finished
      → v.queue ≡ w.queue
      → v.next_lsn ≡ w.next_lsn
      → (v.fatal ≡ none → w.fatal ≡ none)
      → Keeps start w rs
      → Keeps start v rs
  settled-Keeps start w v rs o g f q n z h = record {
    numbered = h.numbered;
    next = n ∙ h.next;
    queue_fits = subst (All InRange) (sym q) h.queue_fits;
    flushed = λ clean.
        let (fs, all, held) = h.flushed (z clean) in
        (fs, ap (λ x. fs ++ x) q ∙ all, moved_Holds w v fs o g f held);
  }

  sync_clean : (w : Writer X) (e : Option X) → (sync w e).0.fatal ≡ none → w.fatal ≡ none
  unfolding sync
  sync_clean w e z = ground arith

  tick_clean : (w : Writer X) (e : Option X) → (tick w e).fatal ≡ none → w.fatal ≡ none
  unfolding tick
  tick_clean w e z = ground arith

  syncs-Keeps :
      (start : ℕ) (w : Writer X) (rs : List Record) (e : Option X)
      → Keeps start w rs
      → Keeps start (sync w e).0 rs
  unfolding sync
  syncs-Keeps start w rs e h =
      settled-Keeps start w (sync w e).0 rs (ground arith) (ground arith) (ground arith)
        (ground arith) (ground arith) (sync_clean w e) h

  ticks-Keeps :
      (start : ℕ) (w : Writer X) (rs : List Record) (e : Option X)
      → Keeps start w rs
      → Keeps start (tick w e) rs
  unfolding tick
  ticks-Keeps start w rs e h =
      settled-Keeps start w (tick w e) rs (ground arith) (ground arith) (ground arith)
        (ground arith) (ground arith) (tick_clean w e) h

  opens-Keeps :
      (path_of : ℕ → List ℕ) (start : ℕ) (o : Options) (now : ℕ)
      → start < 2 ^ 64
      → now < 2 ^ 64
      → Keeps start (open_new path_of o start now) []
  unfolding open_new
  opens-Keeps path_of start o now f n = record {
    numbered = tt;
    next = omega arith;
    queue_fits = tt;
    flushed = λ z. ([], refl, open_new-Holds path_of o start now f n);
  }

  -- In any run of the writer, whatever fails, the accepted records have the numbers from the first
  -- one on, without a gap, and the next one follows them. While no error is set, the directory
  -- holds whole segments, and the records in them with those in the queue are the accepted ones,
  -- in order; and the commits that were finished are those of the records in the segments, without
  -- an error.
  pub Run-Keeps :
      (path_of : ℕ → List ℕ) (start : ℕ) (w : Writer X) (rs : List Record)
      → Run path_of start w rs
      → Keeps start w rs
  Run-Keeps path_of start _ _ (opens o now f n) = opens-Keeps path_of start o now f n
  Run-Keeps path_of start _ _ (submits {w} {rs} r now i n l e run) =
      submits-Keeps start w rs r now i n l e (Run-Keeps path_of start w rs run)
  Run-Keeps path_of start _ rs (flushes {w} n io l run) =
      flushes-Keeps path_of start w rs n io l (Run-Keeps path_of start w rs run)
  Run-Keeps path_of start _ rs (syncs {w} e run) =
      syncs-Keeps start w rs e (Run-Keeps path_of start w rs run)
  Run-Keeps path_of start _ rs (ticks {w} e run) =
      ticks-Keeps start w rs e (Run-Keeps path_of start w rs run)
