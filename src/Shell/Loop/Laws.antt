-- ===== src/Shell/Loop/Laws.antt =====
-- The loop of pmeunier-project/main.c: which command a line names, and where the loop stops.
use cs.Common.{
  ℕ, ◌≡◌, refl, sym, ap, ◌∙◌, true, false, none, some, List, [], ◌∷◌, ◌++◌, ◌⊎◌, inl, inr,
  Bool-cases,
}
use cs.Fs.Layout.Codec.{All}
use cs.Fs.Monad.{M, pure}
use cs.Shell.Commands.{Host}
use cs.Shell.Loop.{
  Command, Session, matches, find_command, is_quit, is_comment, words, run_words, run_line, cmdloop,
}

-- The search gives the first entry of a table that has the name and the number of arguments, or there is
-- none.
pub find_command_lem :
    (word : List ℕ) (nargs : ℕ) (table : List Command)
    → ((find_command word nargs table ≡ none) × All (λ c. matches word nargs c ≡ false) table)
      ⊎ ((before : List Command) × (c : Command) × (after : List Command) × (find_command word nargs
              table
            ≡ some c)
          × (table ≡ before ++ (c ∷ after))
          × (matches word nargs c ≡ true)
          × All (λ d. matches word nargs d ≡ false) before)
unfolding find_command
find_command_lem word nargs [] = inl (refl, tt)
find_command_lem word nargs (c ∷ cs) = elim (Bool-cases (matches word nargs c)) [
  | inl hit ↦ inr ([], c, cs, rw hit refl, refl, hit, tt)
  | inr miss ↦ elim (find_command_lem word nargs cs) [
    | inl (absent, all) ↦ inl (rw miss absent, (miss, all))
    | inr (before, d, after, present, split, hit, all) ↦
        inr (c ∷ before, d, after, rw miss present, ap (λ t. c ∷ t) split, hit, (miss, all))
  ]
]

-- A line whose first word is "quit" or "exit".
pub record Quits (line : List ℕ) (w : List ℕ) (args : List (List ℕ)) : Type 0 where
  pub read : is_comment line ≡ false
  pub split : words line ≡ w ∷ args
  pub quits : is_quit w ≡ true

quit_line :
    (host : Host) (rounds : ℕ) (line w : List ℕ) (args : List (List ℕ)) (rest : Session → M Session)
    (c : Session)
    → Quits line w args
    → run_line host rounds line rest c ≡ pure c
unfolding run_line run_words
quit_line host rounds line w args rest c q =
    rw (q.read) (ap (λ ws. run_words host rounds ws rest c) q.split ∙ rw (q.quits) refl)

quit_here :
    (host : Host) (rounds : ℕ) (line w : List ℕ) (args : List (List ℕ)) (lines : List (List ℕ))
    → Quits line w args
    → cmdloop host rounds (line ∷ lines) ≡ cmdloop host rounds (line ∷ [])
unfolding cmdloop
quit_here host rounds line w args lines q i c =
    (quit_line host rounds line w args (cmdloop host rounds lines) c q
        ∙ sym (quit_line host rounds line w args (cmdloop host rounds []) c q))
      i

-- Whatever lines come before, nothing behind a line that quits is run.
pub cmdloop-quit :
    (host : Host) (rounds : ℕ) (line w : List ℕ) (args : List (List ℕ))
    (before after : List (List ℕ)) (c : Session)
    → Quits line w args
    → cmdloop host rounds (before ++ (line ∷ after)) c
      ≡ cmdloop host rounds (before ++ (line ∷ [])) c
unfolding cmdloop
cmdloop-quit host rounds line w args [] after c q =
    ap (λ f. f c) (quit_here host rounds line w args after q)
cmdloop-quit host rounds line w args (x ∷ before) after c q =
    ap (λ rest. run_line host rounds x rest c)
      (λ i c'. cmdloop-quit host rounds line w args before after c' q i)
