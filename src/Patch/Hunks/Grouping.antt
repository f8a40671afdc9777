-- ===== src/Patch/Hunks/Grouping.antt =====
-- The hunks of the groups of changes, spliced in, turn the one list of lines into the other.
use yuhi.Prelude.{
  ℕ, suc, ◌+◌, ◌-◌, ◌<◌, ◌≤◌, ◌≡◌, refl, false, some, List, [], ◌∷◌, ◌++◌, length, length-append,
  append_assoc, get_elem?, take-append, drop-append, get_elem?-append, All, ltb, arith, inl, inr,
  Bool-cases,
}
use yuhi.Patch.Hunks.{
  Line, TextPatchHunk, Digest, Operation, delete, insert, at_pos, is_equal, if_kind_delete,
  if_kind_insert, hunk_between, hunks_of, changed, groups_from, slice,
}
use yuhi.Patch.Hunks.Script.{Script, done, keep, take_out, put_in}
use yuhi.Patch.Hunks.Splice.{splice-append, splice_back, StartsAfter, IsAscending}

module _ (digest : Digest) (before after : List Line) (ops : List Operation) where
  -- A group is open: `g` of `before` became `g_after` of `after`, and `e` was kept since.
  pub record Pending (R : List Operation) (bs as' : List Line) (i j n s p : ℕ) : Type 0 where
    pub pre : List Line
    pub g : List Line
    pub e : List Line
    pub pre_after : List Line
    pub g_after : List Line
    pub Q : List Operation
    pub first : Operation
    pub last : Operation
    pub before_is : before ≡ pre ++ (g ++ (e ++ bs))
    pub after_is : after ≡ pre_after ++ (g_after ++ (e ++ as'))
    pub ops_are : ops ≡ Q ++ R
    pub n_is : n ≡ length Q
    pub gap : n ≡ suc p + length e
    pub i_is : i ≡ length pre + (length g + length e)
    pub j_is : j ≡ length pre_after + (length g_after + length e)
    pub first_is : get_elem? ops s ≡ some first
    pub last_is : get_elem? ops p ≡ some last
    pub first_before : first.before_pos ≡ length pre
    pub first_after : first.after_pos ≡ length pre_after
    pub last_before : last.before_pos + if_kind_delete last.kind ≡ length pre + length g
    pub last_after : last.after_pos + if_kind_insert last.kind ≡ length pre_after + length g_after

  abbrev pub FromOn : ℕ → TextPatchHunk → Type 0
  FromOn k h = k ≤ h.before_start

  pub record Rebuilds (k : ℕ) (hs : List TextPatchHunk) (result : List Line) : Type 0 where
    pub from_on : All (FromOn k) hs
    pub ascending : IsAscending hs
    pub rebuilt : splice_back hs before ≡ result

  abbrev pub hunks_after : List Operation → ℕ → ℕ → ℕ → List TextPatchHunk
  hunks_after R n s p = hunks_of digest after ops (groups_from s p (changed n R))

  abbrev pub Closes :
      {R : List Operation} {bs as' : List Line} {i j n s p : ℕ}
      → Pending R bs as' i j n s p
      → Type 0
  Closes {R} {bs} {as'} {i} {j} {n} {s} {p} P =
      Rebuilds (length P.pre) (hunks_after R n s p) (P.pre ++ (P.g_after ++ (P.e ++ as')))

  starts_after :
      (k m : ℕ) (hs : List TextPatchHunk) → k < m → All (FromOn m) hs → All (StartsAfter k) hs
  starts_after k m [] h q = tt
  starts_after k m (x ∷ hs) h (q, qs) = (omega (arith, h, q), starts_after k m hs h qs)

  from_lower : (k m : ℕ) (hs : List TextPatchHunk) → k < m → All (FromOn m) hs → All (FromOn k) hs
  from_lower k m [] h q = tt
  from_lower k m (x ∷ hs) h (q, qs) = (omega (arith, h, q), from_lower k m hs h qs)

  slice_is :
      (pre_after g_after rest : List Line) (start end : ℕ)
      → start ≡ length pre_after
      → end ≡ length pre_after + length g_after
      → after ≡ pre_after ++ (g_after ++ rest)
      → slice start end after ≡ g_after
  slice_is pre_after g_after rest start end h k e =
      rw (e, drop-append pre_after (g_after ++ rest) start h)
        (take-append g_after rest (end - start) (omega (arith, h, k)))

  -- A group is closed by its hunk; the hunks of the later groups are spliced in first.
  close :
      {R : List Operation} {bs as' : List Line} {i j n s p : ℕ} (P : Pending R bs as' i j n s p)
      (hs : List TextPatchHunk) (m : ℕ)
      → length P.pre < m
      → Rebuilds m hs (P.pre ++ (P.g ++ (P.e ++ as')))
      → Rebuilds
          (length P.pre)
          (hunk_between digest after P.first P.last ∷ hs)
          (P.pre ++ (P.g_after ++ (P.e ++ as')))
  close {R} {bs} {as'} P hs m h r = record {
    from_on = (omega (arith, P.first_before), from_lower (length P.pre) m hs h r.from_on);
    ascending = (
      starts_after P.first.before_pos m hs (omega (arith, h, P.first_before)) r.from_on,
      r.ascending,
    );
    rebuilt =
        rw
          (
            r.rebuilt,
            slice_is P.pre_after P.g_after (P.e ++ as') P.first.after_pos
                (P.last.after_pos + if_kind_insert P.last.kind) P.first_after P.last_after
                P.after_is,
          )
          (splice-append P.pre P.g (P.e ++ as') P.g_after P.first.before_pos
            (P.last.before_pos + if_kind_delete P.last.kind - P.first.before_pos) P.first_before
            (omega (arith, P.last_before, P.first_before)));
  }

  -- One more line is kept.
  extend :
      {R : List Operation} {bs as' : List Line} {i j n s p : ℕ} (l : Line) (o : Operation)
      → Pending (o ∷ R) (l ∷ bs) (l ∷ as') i j n s p
      → Pending R bs as' (suc i) (suc j) (suc n) s p
  extend {R} {bs} {as'} l o P = record {
    pre = P.pre;
    g = P.g;
    e = P.e ++ l ∷ [];
    pre_after = P.pre_after;
    g_after = P.g_after;
    Q = P.Q ++ o ∷ [];
    first = P.first;
    last = P.last;
    before_is = rw (append_assoc P.e (l ∷ []) bs) P.before_is;
    after_is = rw (append_assoc P.e (l ∷ []) as') P.after_is;
    ops_are = rw (append_assoc P.Q (o ∷ []) R) P.ops_are;
    n_is = omega (arith, P.n_is, length-append P.Q (o ∷ []));
    gap = omega (arith, P.gap, length-append P.e (l ∷ []));
    i_is = omega (arith, P.i_is, length-append P.e (l ∷ []));
    j_is = omega (arith, P.j_is, length-append P.e (l ∷ []));
    first_is = P.first_is;
    last_is = P.last_is;
    first_before = P.first_before;
    first_after = P.first_after;
    last_before = P.last_before;
    last_after = P.last_after;
  }

  -- The lines that a change takes from the one list and puts into the other.
  pub record Change (o : Operation) (db da : List Line) (i j i' j' : ℕ) : Type 0 where
    pub next_before : i' ≡ i + length db
    pub next_after : j' ≡ j + length da
    pub differs : is_equal o.kind ≡ false
    pub at_before : o.before_pos ≡ i
    pub at_after : o.after_pos ≡ j
    pub taken : length db ≡ if_kind_delete o.kind
    pub put : length da ≡ if_kind_insert o.kind

  -- The change belongs to the open group.
  join :
      {R : List Operation} {bs as' : List Line} {i j i' j' n s p : ℕ} (o : Operation)
      (db da : List Line)
      → Change o db da i j i' j'
      → Pending (o ∷ R) (db ++ bs) (da ++ as') i j n s p
      → Pending R bs as' i' j' (suc n) s n
  join {R} {bs} {as'} o db da c P = record {
    pre = P.pre;
    g = P.g ++ (P.e ++ db);
    e = [];
    pre_after = P.pre_after;
    g_after = P.g_after ++ (P.e ++ da);
    Q = P.Q ++ o ∷ [];
    first = P.first;
    last = o;
    before_is = rw (append_assoc P.g (P.e ++ db) bs, append_assoc P.e db bs) P.before_is;
    after_is = rw (append_assoc P.g_after (P.e ++ da) as', append_assoc P.e da as') P.after_is;
    ops_are = rw (append_assoc P.Q (o ∷ []) R) P.ops_are;
    n_is = omega (arith, P.n_is, length-append P.Q (o ∷ []));
    gap = omega arith;
    i_is =
        omega (arith, c.next_before, P.i_is, length-append P.g (P.e ++ db), length-append P.e db);
    j_is =
        omega
          (arith, c.next_after, P.j_is, length-append P.g_after (P.e ++ da), length-append P.e da);
    first_is = P.first_is;
    last_is = rw (P.ops_are) (get_elem?-append P.Q R o _ P.n_is);
    first_before = P.first_before;
    first_after = P.first_after;
    last_before =
        omega (
          arith,
          c.at_before,
          c.taken,
          P.i_is,
          length-append P.g (P.e ++ db),
          length-append P.e db,
        );
    last_after = omega (
      arith,
      c.at_after,
      c.put,
      P.j_is,
      length-append P.g_after (P.e ++ da),
      length-append P.e da,
    );
  }

  -- The change opens a group of its own.
  start_group :
      {R : List Operation} {bs as' : List Line} {i j i' j' n : ℕ} (o : Operation)
      (db da pre pre_after : List Line) (Q : List Operation)
      → Change o db da i j i' j'
      → before ≡ pre ++ (db ++ bs)
      → after ≡ pre_after ++ (da ++ as')
      → ops ≡ Q ++ (o ∷ R)
      → n ≡ length Q
      → i ≡ length pre
      → j ≡ length pre_after
      → Pending R bs as' i' j' (suc n) n n
  start_group {R} {bs} {as'} o db da pre pre_after Q c hb ha ho hn hi hj = record {
    pre = pre;
    g = db;
    e = [];
    pre_after = pre_after;
    g_after = da;
    Q = Q ++ o ∷ [];
    first = o;
    last = o;
    before_is = hb;
    after_is = ha;
    ops_are = rw (append_assoc Q (o ∷ []) R) ho;
    n_is = omega (arith, hn, length-append Q (o ∷ []));
    gap = omega arith;
    i_is = omega (arith, hi, c.next_before);
    j_is = omega (arith, hj, c.next_after);
    first_is = rw (ho) (get_elem?-append Q R o _ hn);
    last_is = rw (ho) (get_elem?-append Q R o _ hn);
    first_before = omega (arith, hi, c.at_before);
    first_after = omega (arith, hj, c.at_after);
    last_before = omega (arith, c.at_before, c.taken, hi);
    last_after = omega (arith, c.at_after, c.put, hj);
  }

  extend_or_split :
      {R : List Operation} {bs as' : List Line} {i j i' j' n s p : ℕ} (o : Operation)
      (db da : List Line)
      → Change o db da i j i' j'
      → (P : Pending (o ∷ R) (db ++ bs) (da ++ as') i j n s p)
      → ((s' p' : ℕ) (Q : Pending R bs as' i' j' (suc n) s' p') → Closes Q)
      → Closes P
  unfolding changed groups_from hunks_of start_group join
  extend_or_split {R} {bs} {as'} {n = n} {s} {p} o db da c P follow_on =
      elim (Bool-cases (ltb 6 (n - p))) [
        | inl far ↦
            let pre' = P.pre ++ (P.g ++ P.e) in
            let next = follow_on n n (
              start_group o db da pre' (P.pre_after ++ (P.g_after ++ P.e)) P.Q c
                (rw (append_assoc P.pre (P.g ++ P.e) (db ++ bs), append_assoc P.g P.e (db ++ bs))
                  P.before_is)
                (rw
                  (
                    append_assoc P.pre_after (P.g_after ++ P.e) (da ++ as'),
                    append_assoc P.g_after P.e (da ++ as'),
                  )
                  P.after_is)
                P.ops_are P.n_is
                (omega (arith, P.i_is, length-append P.pre (P.g ++ P.e), length-append P.g P.e))
                (omega (
                  arith,
                  P.j_is,
                  length-append P.pre_after (P.g_after ++ P.e),
                  length-append P.g_after P.e,
                ))) in
            let closed =
              close P (hunks_after R (suc n) n n) (length pre')
                (ground
                  (arith, far, P.gap, length-append P.pre (P.g ++ P.e), length-append P.g P.e))
                (rw (append_assoc P.pre (P.g ++ P.e) (da ++ as'), append_assoc P.g P.e (da ++ as'))
                  at next) in
            rw (c.differs, far, P.first_is, P.last_is) closed
        | inr near ↦
            rw (c.differs, near)
              (rw (append_assoc P.g_after (P.e ++ da) as', append_assoc P.e da as') at
                (follow_on s n (join o db da c P)))
      ]

  pub is_delete : (i j : ℕ) (l : Line) → Change (at_pos delete i j) (l ∷ []) [] i j (suc i) j
  is_delete i j l = record {
    next_before = omega arith;
    next_after = omega arith;
    differs = refl;
    at_before = refl;
    at_after = refl;
    taken = refl;
    put = refl;
  }

  pub is_insert : (i j : ℕ) (l : Line) → Change (at_pos insert i j) [] (l ∷ []) i j i (suc j)
  is_insert i j l = record {
    next_before = omega arith;
    next_after = omega arith;
    differs = refl;
    at_before = refl;
    at_after = refl;
    taken = refl;
    put = refl;
  }

  -- The rest of a script, with a group open.
  follow :
      {R : List Operation} {bs as' : List Line} {i j : ℕ} (n s p : ℕ)
      → Script i j R bs as'
      → (P : Pending R bs as' i j n s p) → Closes P
  unfolding changed groups_from hunks_of extend
  follow n s p done P =
      rw (P.first_is, P.last_is)
        (close P [] (suc (length P.pre)) (omega arith)
          (record { from_on = tt; ascending = tt; rebuilt = P.before_is }))
  follow n s p (keep {i} {j} {os} {bs} {as'} l S) P =
      rw (append_assoc P.e (l ∷ []) as') at (follow (suc n) s p S (extend l _ P))
  follow n s p (take_out {i} {j} {os} {bs} {as'} l S) P =
      extend_or_split _ (l ∷ []) [] (is_delete i j l) P (λ s' p' Q. follow (suc n) s' p' S Q)
  follow n s p (put_in {i} {j} {os} {bs} {as'} l S) P =
      extend_or_split _ [] (l ∷ []) (is_insert i j l) P (λ s' p' Q. follow (suc n) s' p' S Q)

  -- The rest of a script, from a change that opens a group on.
  pub follow_opened :
      {R : List Operation} {bs as' : List Line} {i j i' j' n : ℕ} (o : Operation)
      (db da pre pre_after : List Line) (Q : List Operation)
      → Change o db da i j i' j'
      → Script i' j' R bs as'
      → before ≡ pre ++ (db ++ bs)
      → after ≡ pre_after ++ (da ++ as')
      → ops ≡ Q ++ (o ∷ R)
      → n ≡ length Q
      → i ≡ length pre
      → j ≡ length pre_after
      → Rebuilds (length pre) (hunks_after R (suc n) n n) (pre ++ (da ++ as'))
  unfolding start_group
  follow_opened {n = n} o db da pre pre_after Q c S hb ha ho hn hi hj =
      follow (suc n) n n S (start_group o db da pre pre_after Q c hb ha ho hn hi hj)
