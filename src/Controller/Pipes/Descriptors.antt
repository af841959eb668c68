-- ===== src/Controller/Pipes/Descriptors.antt =====
-- src/controller/dhtnodes/RWPopen.cpp: initAndFork, which connects a child process by two pipes. The calls of the operating
-- system on a process's table of descriptors are parameters.
use dhtperf.Prelude.{
  ℕ, ◌≡◌, ◌≢◌, ◌<◌, refl, sym, ◌∙◌, Bool, true, false, Option, none, some, Outcome, done, exits,
  arith,
}

-- What a descriptor refers to, and close, dup2, pipe and fork, of which the last two may fail. What close and dup2 return is not looked at.
pub record Descriptors : Type 1 where
  pub Table : Type 0
  pub File : Type 0
  pub get : ℕ → Table → Option File
  pub close : ℕ → Table → Table
  pub dup2 : ℕ → ℕ → Table → Table
  pub pipe : Table → Option (ℕ × ℕ × Table)
  pub forks : Bool

-- The two processes behind fork, and the descriptors that the parent keeps.
pub record Forked (Table : Type 0) : Type 0 where
  pub child_table : Table
  pub parent_table : Table
  pub in_ : ℕ
  pub out_ : ℕ

module _ (system : Descriptors) where
  open system use {Table, File, get, close, dup2, pipe, forks}

  -- The child's branch, for the pipes (r0, w0) and (r1, w1).
  unfoldable pub child_side : ℕ → ℕ → ℕ → ℕ → Table → Table
  child_side r0 w0 r1 w1 t =
      let t = close w1 (close r0 t) in
      let t = dup2 r1 0 (dup2 w0 1 t) in let t = close r1 (close w0 t) in dup2 w0 2 t

  unfoldable pub init_and_fork : Table → Outcome (Forked Table)
  unfolding child_side
  init_and_fork t = elim (pipe t) [
    | none ↦ exits 1
    | some (r0, w0, t) ↦ elim (pipe t) [
      | none ↦ exits 1
      | some (r1, w1, t) ↦ elim forks [
        | false ↦ exits 1
        | true ↦ done (record {
          child_table = child_side r0 w0 r1 w1 t;
          parent_table = close r1 (close w0 t);
          in_ = r0;
          out_ = w1;
        })
      ]
    ]
  ]

  -- As POSIX has it: close frees a descriptor, dup2 makes one refer to what another refers to, and fails without a
  -- change where that is closed; neither changes any other descriptor.
  pub record Posix : Type 0 where
    pub closed : (i : ℕ) (t : Table) → get i (close i t) ≡ none
    pub kept : (i j : ℕ) (t : Table) → i ≢ j → get i (close j t) ≡ get i t
    pub copied : (i j : ℕ) (t : Table) (f : File) → get i t ≡ some f → get j (dup2 i j t) ≡ some f
    pub other : (k i j : ℕ) (t : Table) → k ≢ j → get k (dup2 i j t) ≡ get k t
    pub failed : (i j : ℕ) (t : Table) → get i t ≡ none → dup2 i j t ≡ t

  module _ (posix : Posix) (r0 w0 r1 w1 : ℕ) (t : Table) where
    -- Four descriptors behind the standard ones.
    pub record ArePipes : Type 0 where
      pub low_r0 : 2 < r0
      pub low_w0 : 2 < w0
      pub low_r1 : 2 < r1
      pub low_w1 : 2 < w1
      pub r0_w0 : r0 ≢ w0
      pub r0_r1 : r0 ≢ r1
      pub r0_w1 : r0 ≢ w1
      pub w0_r1 : w0 ≢ r1
      pub w0_w1 : w0 ≢ w1
      pub r1_w1 : r1 ≢ w1

    late_dup2 :
        (p : ArePipes)
        → child_side r0 w0 r1 w1 t
          ≡ close r1 (close w0 (dup2 r1 0 (dup2 w0 1 (close w1 (close r0 t)))))
    unfolding child_side
    late_dup2 p = posix.failed w0 2 _ (posix.kept w0 r1 _ p.w0_r1 ∙ posix.closed w0 _)

    -- Through both calls of close at the end.
    behind_closes :
        (p : ArePipes) (k : ℕ)
        → k < 3
        → get k (child_side r0 w0 r1 w1 t) ≡ get k (dup2 r1 0 (dup2 w0 1 (close w1 (close r0 t))))
    behind_closes p k lt = rw (late_dup2 p) (
        posix.kept k r1 _ (λ e. omega (arith, p.low_r1))
        ∙ posix.kept k w0 _ (λ e. omega (arith, p.low_w0)))

    child_output :
        (p : ArePipes) (f : File) → get w0 t ≡ some f → get 1 (child_side r0 w0 r1 w1 t) ≡ some f
    child_output p f e =
        behind_closes p 1 (omega arith)
        ∙ (posix.other 1 r1 0 _ (λ e. omega arith)
            ∙ posix.copied w0 1 _ f
                (posix.kept w0 w1 _ p.w0_w1 ∙ (posix.kept w0 r0 t (λ e. p.r0_w0 (sym e)) ∙ e)))

    child_input :
        (p : ArePipes) (f : File) → get r1 t ≡ some f → get 0 (child_side r0 w0 r1 w1 t) ≡ some f
    child_input p f e =
        behind_closes p 0 (omega arith)
        ∙ posix.copied r1 0 _ f (
            posix.other r1 w0 1 _ (λ e. omega (arith, p.low_r1))
            ∙ (posix.kept r1 w1 _ p.r1_w1 ∙ (posix.kept r1 r0 t (λ e. p.r0_r1 (sym e)) ∙ e)))

    child_errors : (p : ArePipes) → get 2 (child_side r0 w0 r1 w1 t) ≡ get 2 t
    child_errors p =
        behind_closes p 2 (omega arith)
        ∙ (posix.other 2 r1 0 _ (λ e. omega arith)
            ∙ (posix.other 2 w0 1 _ (λ e. omega arith)
                ∙ (posix.kept 2 w1 _ (λ e. omega (arith, p.low_w1))
                    ∙ posix.kept 2 r0 t (λ e. omega (arith, p.low_r0)))))

    child_others :
        (p : ArePipes)
        → (get r0 (child_side r0 w0 r1 w1 t) ≡ none) × (get w1 (child_side r0 w0 r1 w1 t) ≡ none)
    child_others p = (
      through r0 p.low_r0 p.r0_r1 p.r0_w0 ∙ (posix.kept r0 w1 _ p.r0_w1 ∙ posix.closed r0 t),
      through w1 p.low_w1 (λ e. p.r1_w1 (sym e)) (λ e. p.w0_w1 (sym e)) ∙ posix.closed w1 _,
    )
      where
        through :
            (k : ℕ)
            → 2 < k
            → k ≢ r1
            → k ≢ w0
            → get k (child_side r0 w0 r1 w1 t) ≡ get k (close w1 (close r0 t))
        through k high a b = rw (late_dup2 p) (
            posix.kept k r1 _ a
            ∙ (posix.kept k w0 _ b
                ∙ (posix.other k r1 0 _ (λ e. omega arith)
                    ∙ posix.other k w0 1 _ (λ e. omega arith))))

  -- Where close and dup2 are as POSIX has them, and the two pipes are of four descriptors behind the standard ones: initAndFork
  -- connects the two processes. What the child writes to its standard output goes into the first pipe, which the parent
  -- reads, and its standard input comes from the second, to which the parent writes; neither keeps the other's end of a pipe open. But the
  -- child's standard error is where it was before: it does not go to the pipe.
  pub init_and_fork_lem :
      (posix : Posix) (t t1 t2 : Table) (r0 w0 r1 w1 : ℕ) (a b c d : File)
      → pipe t ≡ some (r0, w0, t1)
      → pipe t1 ≡ some (r1, w1, t2)
      → forks ≡ true
      → ArePipes posix r0 w0 r1 w1 t2
      → get r0 t2 ≡ some a
      → get w0 t2 ≡ some b
      → get r1 t2 ≡ some c
      → get w1 t2 ≡ some d
      → (s : Forked Table) × (init_and_fork t ≡ done s)
        × (get 1 s.child_table ≡ some b)
        × (get 0 s.child_table ≡ some c)
        × (get 2 s.child_table ≡ get 2 t2)
        × (get s.in_ s.child_table ≡ none)
        × (get s.out_ s.child_table ≡ none)
        × (get s.in_ s.parent_table ≡ some a)
        × (get s.out_ s.parent_table ≡ some d)
        × (get w0 s.parent_table ≡ none)
        × (get r1 s.parent_table ≡ none)
  unfolding init_and_fork
  init_and_fork_lem posix t t1 t2 r0 w0 r1 w1 a b c d first second forked p ea eb ec ed =
      let (no_in, no_out) = child_others posix r0 w0 r1 w1 t2 p in
      (
        record {
          child_table = child_side r0 w0 r1 w1 t2;
          parent_table = close r1 (close w0 t2);
          in_ = r0;
          out_ = w1;
        },
        rw (init_and_fork, first, second, forked) refl,
        child_output posix r0 w0 r1 w1 t2 p b eb,
        child_input posix r0 w0 r1 w1 t2 p c ec,
        child_errors posix r0 w0 r1 w1 t2 p,
        no_in,
        no_out,
        posix.kept r0 r1 _ p.r0_r1 ∙ (posix.kept r0 w0 t2 p.r0_w0 ∙ ea),
        posix.kept w1 r1 _ (λ e. p.r1_w1 (sym e))
            ∙ (posix.kept w1 w0 t2 (λ e. p.w0_w1 (sym e)) ∙ ed),
        posix.kept w0 r1 _ p.w0_r1 ∙ posix.closed w0 t2,
        posix.closed r1 _,
      )
