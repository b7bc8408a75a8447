-- ===== src/Worktrees/Probes.antt =====
-- The commands that src/toolbench/worktrees.py issues, and what it reads off their output. The
-- injected `Runner` is a parameter, and so are `float` and the clock.
use tool_benchmarks.Base.{
  ℕ, zero, suc, ◌+◌, ◌/◌, String, Bool, false, not, ◌||◌, Option, none, some,
}
use tool_benchmarks.Base.{List, [], ◌∷◌, length, eqb, string_eq, if◌then◌else◌}
use tool_benchmarks.Base.Dict.{Dict, lookup, or_start}
use tool_benchmarks.Base.Int.{ℤ, ◌-ℤ◌, pos, negsuc, ltb_ℤ}
use tool_benchmarks.Base.Text.{
  is_empty, strip, splitlines, startswith, first_word, int_digits, without_prefix,
}
use tool_benchmarks.Json.{Float}
use tool_benchmarks.Outcome.{Result, ok, err, ◌>>=◌, worktree_probe_failed}
use tool_benchmarks.Paths.{NormalPath, path_of, path_text, child}

-- `subprocess.CompletedProcess`, as far as it is read.
pub record CompletedProcess : Type 0 where
  pub returncode : ℤ
  pub stdout : String

-- `sources.Runner`: it runs a command, or raises.
abbrev pub Runner : Type 0
Runner = List String → Result CompletedProcess

-- `float(text)`, with none for a ValueError, and `int((now - mtime) // SECONDS_PER_DAY)`.
pub record Clock : Type 0 where
  pub float_of : String → Option Float
  pub days_since : Float → Result ℤ

abbrev pub unknown : ℤ
unknown = negsuc 0

abbrev pub trunk : String
trunk = "refs/heads/main"

abbrev pub remotes : String
remotes = "refs/remotes/"

abbrev pub succeeded : CompletedProcess → Bool
succeeded proc = elim proc.returncode [ pos n ↦ eqb n 0 | negsuc n ↦ false ]

-- `_check`; the exception's message is not modelled.
unfoldable pub check : CompletedProcess → Result String
check proc = if succeeded proc then ok proc.stdout else err worktree_probe_failed

-- `[line.strip() for line in out.splitlines() if line.strip()]`
unfoldable pub stripped_lines : List String → List String
stripped_lines [] = []
stripped_lines (line ∷ lines) =
    let rest = stripped_lines lines in
    let text = strip line in if is_empty text then rest else text ∷ rest

-- `int(s)` on a word of ASCII characters
unfoldable pub int_of : String → Option ℤ
unfolding int_digits without_prefix
int_of s = elim (without_prefix "-" s) [
  | some digits ↦ elim (int_digits (0, false) digits) [
    | none ↦ none
    | some n ↦ some (pos 0 -ℤ pos n)
  ]
  | none ↦ elim (int_digits (0, false) (or_start s (without_prefix "+" s))) [
    | none ↦ none
    | some n ↦ some (pos n)
  ]
]

-- `math.ceil(n / 1024)`, which is exact below 2 ^ 53.
abbrev ceil_1024 : ℤ → ℤ
ceil_1024 (pos n) = pos ((n + 1023) / 1024)
ceil_1024 (negsuc n) = elim (suc n / 1024) [ zero ↦ pos 0 | suc m ↦ negsuc m ]

module _ (runner : Runner) where
  -- `_containing_refs`
  unfoldable pub containing_refs : NormalPath → String → Result (List String)
  unfolding check stripped_lines splitlines
  containing_refs repo head =
      runner (
        "git"
        ∷ "-C"
        ∷ path_text repo
        ∷ "for-each-ref"
        ∷ "--contains"
        ∷ head
        ∷ "--format=%(refname)"
        ∷ trunk
        ∷ remotes
        ∷ [])
      >>= check
      >>= λ out. ok (stripped_lines (splitlines out))

  -- `is_claimed`
  unfoldable pub is_claimed : Option String → NormalPath → Dict String String → Result Bool
  unfolding startswith lookup
  is_claimed none repo upstreams = ok false
  is_claimed (some branch) repo upstreams =
      let upstream = or_start "" (lookup branch upstreams) in
      if not (startswith remotes upstream)
      then ok false
      else (runner ("git" ∷ "-C" ∷ path_text repo ∷ "rev-parse" ∷ "--verify" ∷ upstream ∷ [])
          >>= λ proc. ok (succeeded proc))

  -- `_dirty_count`
  unfoldable pub dirty_count : NormalPath → Result ℕ
  unfolding check stripped_lines splitlines
  dirty_count path =
      runner ("git" ∷ "-C" ∷ path_text path ∷ "status" ∷ "--porcelain" ∷ []) >>= check >>= λ out.
      ok (length (stripped_lines (splitlines out)))

  module _ (clock : Clock) where
    abbrev time_of : CompletedProcess → Option Float
    time_of proc =
        if not (succeeded proc)
        then none
        else elim (first_word (strip proc.stdout)) [ none ↦ none | some text ↦ clock.float_of text ]

    -- The loop of `_mtime` over the spellings of `stat`.
    unfoldable pub mtime : NormalPath → List (String × String) → Result (Option Float)
    unfolding first_word strip path_text
    mtime path [] = ok none
    mtime path ((flag, fmt) ∷ spellings) =
        let others = mtime path spellings in
        runner ("stat" ∷ flag ∷ fmt ∷ path_text path ∷ []) >>= λ proc. elim (time_of proc) [
          | none ↦ others
          | some time ↦ ok (some time)
        ]

    abbrev days_of : Option Float → Result ℤ
    days_of none = ok unknown
    days_of (some time) =
        clock.days_since time >>= λ days. ok (if ltb_ℤ days (pos 0) then pos 0 else days)

    -- `_idle_days`
    unfoldable pub idle_days : NormalPath → Result ℤ
    unfolding mtime path_of
    idle_days path =
        runner ("git" ∷ "-C" ∷ path_text path ∷ "rev-parse" ∷ "--absolute-git-dir" ∷ []) >>= λ proc.
        if not (succeeded proc) || is_empty (strip proc.stdout)
        then ok unknown
        else (mtime (child (path_of (strip proc.stdout)) "gitdir")
              (("-f", "%m") ∷ ("-c", "%Y") ∷ [])
            >>= days_of)

  abbrev kilobytes : CompletedProcess → Option ℤ
  kilobytes proc =
      if not (succeeded proc)
      then none
      else elim (first_word proc.stdout) [ none ↦ none | some text ↦ int_of text ]

  -- `_megabytes`
  unfoldable pub megabytes : NormalPath → Result ℤ
  unfolding int_of first_word
  megabytes path = runner ("du" ∷ "-sk" ∷ path_text path ∷ []) >>= λ proc.
      ok (elim (kilobytes proc) [ none ↦ unknown | some n ↦ ceil_1024 n ])
