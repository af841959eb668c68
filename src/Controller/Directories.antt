-- ===== src/Controller/Directories.antt =====
-- mkdir_p of src/controller/Utils.cpp, and the constructor of src/controller/dhtnodes/Wrapper.cpp, which enters a directory of its
-- own. The calls of the operating system are parameters.
use dhtperf.Prelude.{
  ℕ, ◌≡◌, refl, ◌++◌, ◌∷◌, Bytes, Option, none, some, Outcome, done, exits, ◌>>=◌, decimal, subst,
  done-injective, arith, ap,
}

-- What stat finds: a failure is either ENOENT or another.
pub data Status : Type 0 where
  missing directory other_file failed : Status

-- stat, mkdir, chdir and setpgid; those that change something are none where they fail.
pub record FileSystem : Type 1 where
  pub Files : Type 0
  pub stat : Bytes → Files → Status
  pub mkdir : Bytes → Files → Option Files
  pub chdir : Bytes → Files → Option Files
  pub set_group : Files → Option Files

module _ (system : FileSystem) where
  open system use {Files, stat, mkdir, chdir, set_group}

  unfoldable pub or_exit : Option Files → Outcome Files
  or_exit none = exits 1
  or_exit (some files) = done files

  unfoldable pub mkdir_p : Bytes → Files → Outcome Files
  unfolding or_exit
  mkdir_p name files = elim (stat name files) [
    | missing ↦ or_exit (mkdir name files)
    | directory ↦ done files
    | other_file ↦ exits 1
    | failed ↦ exits 1
  ]

  -- dirName << binaryName << "." << selfPort
  unfoldable pub directory_name : Bytes → ℕ → Bytes
  directory_name binary port = binary ++ (b'.' ∷ decimal port)

  unfoldable pub new_wrapper : Bytes → ℕ → Files → Outcome Files
  unfolding or_exit mkdir_p directory_name
  new_wrapper binary port files = do
    files ← or_exit (set_group files)
    files ← mkdir_p (directory_name binary port) files
    or_exit (chdir (directory_name binary port) files)

  or_exit_inv : (o : Option Files) (after : Files) → or_exit o ≡ done after → o ≡ some after
  unfolding or_exit
  or_exit_inv none after e = absurd (cc)
  or_exit_inv (some files) after e = ap some (done-injective files after e)

  -- mkdir makes a directory.
  pub record MakesDirectories : Type 0 where
    pub made :
        (name : Bytes) (files after : Files)
        → mkdir name files ≡ some after
        → stat name after ≡ directory

  -- Where mkdir makes a directory if it reports no error: once mkdir_p has returned, the directory is there, and mkdir_p for the same name
  -- changes nothing any more.
  pub mkdir_p_again :
      (laws : MakesDirectories) (name : Bytes) (files after : Files)
      → mkdir_p name files ≡ done after
      → (stat name after ≡ directory) × (mkdir_p name after ≡ done after)
  unfolding mkdir_p or_exit
  mkdir_p_again laws name files after e =
      let there : stat name after ≡ directory = by_status (stat name files) refl in
      (there, rw (mkdir_p, there) refl)
    where
      by_status : (s : Status) → stat name files ≡ s → stat name after ≡ directory
      by_status missing f =
          laws.made name files after (or_exit_inv (mkdir name files) after (rw (mkdir_p, f) at e))
      by_status directory f =
          subst (λ x. stat name x ≡ directory) (done-injective files after (rw (mkdir_p, f) at e)) f
      by_status other_file f = absurd (ground (arith, rw (mkdir_p, f) at e))
      by_status failed f = absurd (ground (arith, rw (mkdir_p, f) at e))
