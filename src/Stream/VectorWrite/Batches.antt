-- ===== src/Stream/VectorWrite/Batches.antt =====
-- The batches of src/network/vector_write.cpp: where the bytes of the fragments so far are.
use lightstep_tracer_cpp.Base.{
  ℕ, ◌+◌, ◌≤◌, ◌≡◌, refl, ap, sym, ◌∙◌, Bool, true, false, not, ◌||◌, List, [], ◌∷◌, ◌++◌, ◌==◌,
  if_elim, length, take, drop, length-append, length-take_exact, take-drop, drop-beyond,
  append_assoc, append-nil, arith,
}
use lightstep_tracer_cpp.Stream.{Fragment, concat, if_go_on, visit}
use lightstep_tracer_cpp.Stream.Positions.{concat-append}
use lightstep_tracer_cpp.Stream.VectorWrite.{
  Answer, written, would_block, failed, Socket, Progress, started, take_answer, do_write,
  do_fragment,
}

-- The socket takes at most what it is given.
abbrev pub IsHonest : Socket → Type 0
IsHonest socket =
    (k : ℕ) (batch : List Fragment) (n : ℕ) → socket k batch ≡ written n → n ≤ length (concat batch)

-- What the counters say, and where the bytes of the fragments so far are: sent, in the batch, or, once
-- a call has not taken all, neither.
pub record Counts (p : Progress) (done : List ℕ) : Type 0 where
  pub unsent : List ℕ
  pub split : done ≡ p.sent ++ (concat p.batch ++ unsent)
  pub batch_bytes : p.batch_num_bytes ≡ length (concat p.batch)
  pub sent_bytes : p.num_bytes_written ≡ length p.sent

-- What has been sent is the first part.
pub record Split (p : Progress) (done : List ℕ) : Type 0 where
  pub unsent : List ℕ
  pub split : done ≡ p.sent ++ unsent
  pub sent_bytes : p.num_bytes_written ≡ length p.sent

-- After a callback, which returns whether to go on: then all but the batch is sent.
pub record Loop (r : Bool × Progress) (done : List ℕ) : Type 0 where
  pub counts : Counts r.1 done
  pub running : r.0 ≡ true → counts.unsent ≡ []

concat-end : (xs : List Fragment) (x : Fragment) → concat (xs ++ (x ∷ [])) ≡ concat xs ++ x
unfolding concat
concat-end xs x = concat-append xs (x ∷ []) ∙ ap (λ (r : List ℕ). concat xs ++ r) (append-nil x)

-- More fragments, of which nothing is sent.
Counts-more : (p : Progress) (done more : List ℕ) → Counts p done → Counts p (done ++ more)
Counts-more p done more c = record {
  unsent = c.unsent ++ more;
  split =
      ap (λ (t : List ℕ). t ++ more) c.split
      ∙ (append_assoc p.sent (concat p.batch ++ c.unsent) more
          ∙ ap (λ (t : List ℕ). p.sent ++ t) (append_assoc (concat p.batch) c.unsent more));
  batch_bytes = c.batch_bytes;
  sent_bytes = c.sent_bytes;
}

pub if_go_on-Loop :
    (r : Bool × Progress) (k : Progress → Bool × Progress) (done more : List ℕ)
    → Loop r done
    → ((p : Progress) (c : Counts p done) → c.unsent ≡ [] → Loop (k p) (done ++ more))
    → Loop (if_go_on r k) (done ++ more)
if_go_on-Loop (true, p) k done more h next = next p h.counts (h.running refl)
if_go_on-Loop (false, p) k done more h next = record {
  counts = Counts-more p done more h.counts;
  running = λ e. absurd (true≢false e);
}
  where
    true≢false : false ≡ true → ⊥
    true≢false e = cc

-- A fragment goes into the batch.
added-Counts :
    (p : Progress) (done x : List ℕ) (c : Counts p done)
    → c.unsent ≡ []
    → Counts
        (record p { batch = p.batch ++ (x ∷ []); batch_num_bytes = p.batch_num_bytes + length x })
        (done ++ x)
added-Counts p done x c none = record {
  unsent = [];
  split =
      ap (λ (t : List ℕ). t ++ x) c.split
      ∙ (append_assoc p.sent (concat p.batch ++ c.unsent) x
          ∙ ap (λ (t : List ℕ). p.sent ++ t)
              (ap (λ (u : List ℕ). (concat p.batch ++ u) ++ x) none
                ∙ (ap (λ (t : List ℕ). t ++ x) (append-nil (concat p.batch))
                    ∙ (sym (concat-end p.batch x)
                        ∙ sym (append-nil (concat (p.batch ++ (x ∷ []))))))));
  batch_bytes =
      omega
        (arith, c.batch_bytes, ap length (concat-end p.batch x), length-append (concat p.batch) x);
  sent_bytes = c.sent_bytes;
}

pub nothing_sent : (c : Counts started []) × (c.unsent ≡ [])
unfolding concat
nothing_sent = (record { unsent = []; split = refl; batch_bytes = refl; sent_bytes = refl }, refl)

-- The end of a loop that has not been broken off.
pub Loop-end :
    (p : Progress) (done : List ℕ) (c : Counts p done) → c.unsent ≡ [] → Loop (true, p) (done ++ [])
unfolding Counts-more
Loop-end p done c none = record {
  counts = Counts-more p done [] c;
  running = λ _. append-nil c.unsent ∙ none;
}

module _ (socket : Socket) (honest : IsHonest socket) where
  pub take_answer-Counts :
      (p : Progress) (done : List ℕ) (a : Answer)
      → socket p.calls p.batch ≡ a
      → Counts p done
      → let p' = take_answer a p in Counts (record p' { batch = []; batch_num_bytes = 0 }) done
  unfolding concat
  take_answer-Counts p done would_block e c = record {
    unsent = concat p.batch ++ c.unsent;
    split = c.split;
    batch_bytes = refl;
    sent_bytes = c.sent_bytes;
  }
  take_answer-Counts p done failed e c = record {
    unsent = concat p.batch ++ c.unsent;
    split = c.split;
    batch_bytes = refl;
    sent_bytes = c.sent_bytes;
  }
  take_answer-Counts p done (written n) e c = record {
    unsent = drop n (concat p.batch) ++ c.unsent;
    split =
        c.split
        ∙ (ap (λ (t : List ℕ). p.sent ++ (t ++ c.unsent)) (take-drop n (concat p.batch))
            ∙ (ap (λ (t : List ℕ). p.sent ++ t)
                  (append_assoc (take n (concat p.batch)) (drop n (concat p.batch)) c.unsent)
                ∙ sym (
                    append_assoc p.sent (take n (concat p.batch))
                      (drop n (concat p.batch) ++ c.unsent))));
    batch_bytes = refl;
    sent_bytes = omega (
      arith,
      c.sent_bytes,
      length-append p.sent (take n (concat p.batch)),
      length-take_exact n (concat p.batch) (honest p.calls p.batch n e),
    );
  }

  going_on :
      (p : Progress) (done : List ℕ) (a : Answer) (e : socket p.calls p.batch ≡ a)
      (c : Counts p done)
      → c.unsent ≡ []
      → not ((take_answer a p).error || (take_answer a p).blocked) ≡ true
      → (take_answer-Counts p done a e c).unsent ≡ []
  unfolding take_answer-Counts
  going_on p done would_block e c none go = absurd (grind arith)
  going_on p done failed e c none go = absurd (grind arith)
  going_on p done (written n) e c none go =
      ap (λ (u : List ℕ). drop n (concat p.batch) ++ u) none
      ∙ (append-nil (drop n (concat p.batch))
          ∙ drop-beyond n (concat p.batch) (ground (arith, c.batch_bytes)))

  do_fragment-Loop :
      (max_batch_size : ℕ) (x : Fragment) (p : Progress) (done : List ℕ) (c : Counts p done)
      → c.unsent ≡ []
      → Loop (do_fragment socket max_batch_size x p) (done ++ x)
  unfolding do_fragment do_write added-Counts
  do_fragment-Loop max_batch_size x p done c none =
      let p1 : Progress = record p {
        batch = p.batch ++ (x ∷ []);
        batch_num_bytes = p.batch_num_bytes + length x;
      } in
      let c1 : Counts p1 (done ++ x) = added-Counts p done x c none in
      if_elim (λ r. Loop r (done ++ x)) (length p1.batch == max_batch_size) _ _
        (λ _. record {
          counts = take_answer-Counts p1 (done ++ x) (socket p1.calls p1.batch) refl c1;
          running = going_on p1 (done ++ x) (socket p1.calls p1.batch) refl c1 refl;
        })
        (λ _. record { counts = c1; running = λ _. refl })

  pub visit-Loop :
      (max_batch_size : ℕ) (xs : List Fragment) (p : Progress) (done : List ℕ) (c : Counts p done)
      → c.unsent ≡ []
      → Loop (visit (do_fragment socket max_batch_size) xs p) (done ++ concat xs)
  unfolding visit concat
  visit-Loop max_batch_size [] p done c none = Loop-end p done c none
  visit-Loop max_batch_size (x ∷ xs) p done c none = rw (append_assoc done x (concat xs)) at (
      if_go_on-Loop (do_fragment socket max_batch_size x p)
        (visit (do_fragment socket max_batch_size) xs) (done ++ x) (concat xs)
        (do_fragment-Loop max_batch_size x p done c none)
        (λ q d e. visit-Loop max_batch_size xs q (done ++ x) d e))
