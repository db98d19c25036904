-- ===== src/Log/Levels.antt =====
-- What a logger writes at each level, and before each message.
use qperf_go.Prelude.{
  ℕ, ◌≡◌, refl, ap, sym, ◌∙◌, true, false, none, some, List, [], ◌∷◌, ◌++◌, append_assoc,
  append-nil, if◌then◌else◌, leb, ltb, ◌==◌, length, arith, ◌≤◌, Bool-cases, inl, inr,
  none-neq-some, ◌≢◌, ◌⊎◌,
}
use qperf_go.ByteCount.{to_lower}
use qperf_go.Log.{
  Logger, before_format, log_message, message, debugf, infof, errorf, with_prefix, level_of_text,
  read_logging_env, log_level_error, log_level_info, log_level_debug,
}

-- Prefixes, newest first, each in brackets, and the empty ones not at all.
abbrev pub bracketed : List ℕ → List ℕ
bracketed [] = []
bracketed (c ∷ cs) = (91 ∷ []) ++ ((c ∷ cs) ++ (93 ∷ []))

unfoldable pub with_all : Logger → List (List ℕ) → Logger
with_all l [] = l
with_all l (p ∷ ps) = with_prefix (with_all l ps) p

abbrev pub all_bracketed : List (List ℕ) → List ℕ
all_bracketed [] = []
all_bracketed (p ∷ ps) = all_bracketed ps ++ bracketed p

with_prefix-fields :
    (l : Logger) (p : List ℕ)
    → ((with_prefix l p).prefix ≡ l.prefix ++ bracketed p)
      × ((with_prefix l p).log_level ≡ l.log_level)
      × ((with_prefix l p).time_format ≡ l.time_format)
unfolding with_prefix
with_prefix-fields l [] = (sym (append-nil l.prefix), refl, refl)
with_prefix-fields l (c ∷ cs) = (refl, refl, refl)

with_all-fields :
    (l : Logger) (ps : List (List ℕ))
    → ((with_all l ps).prefix ≡ l.prefix ++ all_bracketed ps)
      × ((with_all l ps).log_level ≡ l.log_level)
      × ((with_all l ps).time_format ≡ l.time_format)
unfolding with_all
with_all-fields l [] = (sym (append-nil l.prefix), refl, refl)
with_all-fields l (p ∷ ps) =
    let i = with_all-fields l ps in
    let k = with_prefix-fields (with_all l ps) p in
    (
      k.0 ∙ ap (λ x. x ++ bracketed p) i.0 ∙ append_assoc l.prefix (all_bracketed ps) (bracketed p),
      k.1 ∙ i.1,
      k.2 ∙ i.2,
    )

env-level :
    (text : List ℕ)
    → (log_level_error ≤ level_of_text text) × (level_of_text text ≤ log_level_debug)
unfolding level_of_text
env-level text = ground arith

-- The default logger, for the value of the environment variable.
abbrev pub default_logger : List ℕ → Logger
default_logger value = record { prefix = []; log_level = read_logging_env value; time_format = [] }

unfoldable pub spaced : List ℕ → List ℕ
spaced [] = []
spaced (c ∷ cs) = (c ∷ cs) ++ (32 ∷ [])

prefix-spaced : (p : List ℕ) → (if ltb 0 (length p) then p ++ (32 ∷ []) else []) ≡ spaced p
unfolding spaced
prefix-spaced [] = refl
prefix-spaced (c ∷ cs) = ground arith

before-spaced :
    (l : Logger) (time : List ℕ) → l.time_format ≡ [] → before_format l time ≡ spaced l.prefix
unfolding before_format
before-spaced l time h = rw h (prefix-spaced l.prefix)

-- The percent sign, which starts a verb of a format.
abbrev percent : ℕ
percent = 37

-- No byte of the text is a percent sign.
abbrev pub NoPercent : List ℕ → Type 0
NoPercent [] = 0 ≤ 0
NoPercent (c ∷ cs) = ((c == percent) ≡ false) × NoPercent cs

abbrev pub AllNoPercent : List (List ℕ) → Type 0
AllNoPercent [] = 0 ≤ 0
AllNoPercent (p ∷ ps) = NoPercent p × AllNoPercent ps

-- `Printf` copies the bytes of a format that stand before its verbs.
abbrev pub Copies : {Args : Type 0} → (List ℕ → Args → List ℕ) → Type 0
Copies {Args} printf =
    (text format : List ℕ) (args : Args)
    → NoPercent text
    → printf (text ++ format) args ≡ text ++ printf format args

append-NoPercent : (a b : List ℕ) → NoPercent a → NoPercent b → NoPercent (a ++ b)
append-NoPercent [] b h k = k
append-NoPercent (c ∷ cs) b h k = (h.0, append-NoPercent cs b h.1 k)

bracketed-NoPercent : (p : List ℕ) → NoPercent p → NoPercent (bracketed p)
bracketed-NoPercent [] h = h
bracketed-NoPercent (c ∷ cs) h = (refl, append-NoPercent (c ∷ cs) (93 ∷ []) h (refl, omega arith))

all_bracketed-NoPercent : (ps : List (List ℕ)) → AllNoPercent ps → NoPercent (all_bracketed ps)
all_bracketed-NoPercent [] h = h
all_bracketed-NoPercent (p ∷ ps) h =
    append-NoPercent (all_bracketed ps) (bracketed p) (all_bracketed-NoPercent ps h.1)
      (bracketed-NoPercent p h.0)

spaced-NoPercent : (p : List ℕ) → NoPercent p → NoPercent (spaced p)
unfolding spaced
spaced-NoPercent [] h = h
spaced-NoPercent (c ∷ cs) h = append-NoPercent (c ∷ cs) (32 ∷ []) h (refl, omega arith)

module _ {Args : Type 0} (printf : List ℕ → Args → List ℕ) where
  error_writes :
      (l : Logger) (time format : List ℕ) (args : Args)
      → log_level_error ≤ l.log_level
      → errorf printf l time format args ≡ some (log_message printf l time format args)
  unfolding errorf message
  error_writes l time format args h =
      let t : leb log_level_error l.log_level ≡ true = ground (arith, h) in rw t refl

  -- Whether a level writes does not depend on what is to be written.
  levels_nest :
      (l : Logger) (time format : List ℕ) (args : Args)
      → (infof printf l time format args ≢ none) ⊎ (debugf printf l time format args ≡ none)
  unfolding infof debugf message
  levels_nest l time format args = elim (Bool-cases (leb log_level_info l.log_level)) [
    | inl t ↦ rw t (inl (λ e. none-neq-some (sym e)))
    | inr t ↦
        let d : (l.log_level == log_level_debug) ≡ false = ground (arith, t) in rw d (inr refl)
  ]

  -- For a `Printf` that copies what stands before the verbs of a format, the default logger with any
  -- value of the environment variable, and any prefixes without percent signs added to it: `Errorf`
  -- always writes, first the prefixes that are not empty, in brackets and in the order in which they
  -- were added, and a space if there are any, then what `Printf` makes of the format, as a line; and
  -- `Infof` writes or `Debugf` does not.
  pub levels_lem :
      (value : List ℕ) (prefixes : List (List ℕ)) (time format : List ℕ) (args : Args)
      → Copies printf
      → AllNoPercent prefixes
      → (errorf printf (with_all (default_logger value) prefixes) time format args
          ≡ some (spaced (all_bracketed prefixes) ++ printf (format ++ (10 ∷ [])) args))
        × ((infof printf (with_all (default_logger value) prefixes) time format args ≢ none)
            ⊎ (debugf printf (with_all (default_logger value) prefixes) time format args ≡ none))
  unfolding log_message
  levels_lem value prefixes time format args copies plain =
      let l = with_all (default_logger value) prefixes in
      let k = with_all-fields (default_logger value) prefixes in
      let level : log_level_error ≤ l.log_level =
        omega (arith, k.1, (env-level (to_lower value)).0) in
      let before : before_format l time ≡ spaced (all_bracketed prefixes) =
        before-spaced l time k.2 ∙ ap spaced k.0 in
      (
        error_writes l time format args level
            ∙ ap (λ b. some (printf (b ++ (format ++ (10 ∷ []))) args)) before
            ∙ ap some (
                copies (spaced (all_bracketed prefixes)) (format ++ (10 ∷ [])) args (
                  spaced-NoPercent (all_bracketed prefixes)
                    (all_bracketed-NoPercent prefixes plain))),
        levels_nest l time format args,
      )
