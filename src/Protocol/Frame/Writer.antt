-- ===== src/Protocol/Frame/Writer.antt =====
-- WriteFull of internal/protocol/frame.go: the loop over short writes, and that it ends.
use kvstore.Prelude.{
  ℕ, zero, suc, ◌≤◌, ◌≡◌, ◌≢◌, ◌∙◌, Option, none, some, List, [], ◌∷◌, ◌++◌, append-nil,
  append_assoc, arith, length, take, drop, take-append-drop, length-drop, ◌==◌, if◌then◌else◌,
}

-- What one `w.Write(p)` returns: the count, the error, and the writer's new state.
pub record Write {ℓ κ} (W : Type ℓ) (E : Type κ) : Type (ℓ ⊔ κ) where
  pub count : ℕ
  pub error : Option E
  pub next : W

-- `stuck` is no Go value: the loop ran out of fuel.
pub data Sent {ℓ κ} (W : Type ℓ) (E : Type κ) : Type (ℓ ⊔ κ) where
  sent : W → Sent W E
  stopped : E → W → Sent W E
  short_write : W → Sent W E
  stuck : Sent W E

module _ {ℓ κ} {W : Type ℓ} {E : Type κ} (write : W → List ℕ → Write W E) where
  -- The writer is the caller's; `p[n:]` is `drop n p`, for the counts that io.Writer allows.
  unfoldable pub write_loop : ℕ → W → List ℕ → Sent W E
  write_loop fuel w [] = sent w
  write_loop zero w (x ∷ p) = stuck
  write_loop (suc fuel) w (x ∷ p) =
      let r = write w (x ∷ p) in
      let more = write_loop fuel r.next (drop r.count (x ∷ p)) in
      elim r.error [
        | some e ↦ stopped e r.next
        | none ↦ if r.count == 0 then short_write r.next else more
      ]

  -- Each round that goes on takes a byte, so `length p` rounds are enough.
  unfoldable pub write_full : W → List ℕ → Sent W E
  write_full w p = write_loop (length p) w p

  -- What io.Writer documents of the count, and what `out` shows of the bytes accepted so far.
  pub record IsWriter (out : W → List ℕ) : Type (ℓ ⊔ κ) where
    pub counted : (w : W) (p : List ℕ) → (write w p).count ≤ length p
    pub accepted : (w : W) (p : List ℕ) → out (write w p).next ≡ out w ++ take (write w p).count p

  module _ (out : W → List ℕ) (h : IsWriter out) where
    write_loop-ne-stuck :
        (fuel : ℕ) (w : W) (p : List ℕ) → length p ≤ fuel → write_loop fuel w p ≢ stuck
    unfolding write_loop
    write_loop-ne-stuck fuel w [] l e = cc
    write_loop-ne-stuck zero w (x ∷ p) l e = absurd (omega arith)
    write_loop-ne-stuck (suc fuel) w (x ∷ p) l e = ground (
      arith,
      write_loop-ne-stuck fuel (write w (x ∷ p)).next (drop (write w (x ∷ p)).count (x ∷ p)),
      length-drop (write w (x ∷ p)).count (x ∷ p),
    )

    write_loop-out :
        (fuel : ℕ) (w : W) (p : List ℕ) (v : W) → write_loop fuel w p ≡ sent v → out v ≡ out w ++ p
    unfolding write_loop
    write_loop-out fuel w [] v e = let q : v ≡ w = cc in rw (append-nil, q)
    write_loop-out zero w (x ∷ p) v e = cc
    write_loop-out (suc fuel) w (x ∷ p) v e =
        let r = write w (x ∷ p) in
        let go : write_loop fuel r.next (drop r.count (x ∷ p)) ≡ sent v = ground arith in
        write_loop-out fuel r.next (drop r.count (x ∷ p)) v go
        ∙ rw (h.accepted w (x ∷ p), append_assoc, take-append-drop)

    -- For a writer that counts and accepts bytes as io.Writer documents, the loop ends on
    -- every input within its fuel.
    pub write_full_ends : (w : W) (p : List ℕ) → write_full w p ≢ stuck
    unfolding write_full
    write_full_ends w p = write_loop-ne-stuck (length p) w p (omega arith)

    -- For a writer that counts and accepts bytes as io.Writer documents, if the loop reports
    -- no error then the writer has accepted exactly the bytes of `p`, in order, whatever short
    -- writes there were.
    pub write_full_lem : (w : W) (p : List ℕ) (v : W) → write_full w p ≡ sent v → out v ≡ out w ++ p
    unfolding write_full
    write_full_lem w p v = write_loop-out (length p) w p v
