-- ===== src/Build.antt =====
-- build.rs: the branch and the commit that `--version` reports. What running git gives is a parameter.
use sqlite_server_rs.Prelude.{
  Bool, not, Option, none, some, List, [], ◌∷◌, ◌++◌, Text, bytes, if◌then◌else◌,
}
use mathlib.Core.Option
use sqlite_server_rs.Rust.Str.{trim}
use sqlite_server_rs.Rust.Utf8.{from_utf8_lossy}

-- `Command::new("git").args(args).output()`: whether the exit status is that of a success, and the
-- standard output
abbrev pub Output : Type 0
Output = Bool × Text

module _ (output : List Text → Option Output) where
  unfoldable pub git : List Text → Option Text
  git args = elim (output args) [
    | none ↦ none
    | some (success, stdout) ↦ if not success then none else some (trim (from_utf8_lossy stdout))
  ]

  unfoldable pub branch : Text
  unfolding git
  branch =
      Option.get_or (git (bytes "rev-parse" ∷ bytes "--abbrev-ref" ∷ bytes "HEAD" ∷ []))
        (bytes "unknown")

  unfoldable pub commit : Text
  unfolding git
  commit = Option.get_or (git (bytes "rev-parse" ∷ bytes "HEAD" ∷ [])) (bytes "unknown")

  -- the lines that the build prints
  unfoldable pub instructions : List Text
  unfolding branch commit
  instructions =
      (bytes "cargo:rustc-env=GIT_BRANCH=" ++ branch)
      ∷ (bytes "cargo:rustc-env=GIT_COMMIT_HASH=" ++ commit)
      ∷ bytes "cargo:rerun-if-changed=.git/HEAD"
      ∷ []
