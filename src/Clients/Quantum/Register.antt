-- ===== src/Clients/Quantum/Register.antt =====
-- Runs of pa4/src/scull.c on the driver of pa4/driver/scull.c against a register.
use cs.Common.{
  ℕ, subst, ◌^◌, ◌<◌, ◌≡◌, refl, sym, ap, ◌∙◌, List, [], ◌∷◌, ◌++◌, ◌==◌, if◌then◌else◌,
}
use cs.Quantum.{Driver, Command}
use cs.Fs.Layout.Codec.{All}
use cs.Clients.Arguments.{accepted, quantum_command}
use cs.Clients.Quantum.{
  Machine, Shown, Done, Finish, ended, abort_called, stray_join, letter, do_op, closing,
  main_parsed, main,
}
use cs.Clients.Quantum.Run.{
  Works, register, Ran, taken, quantum_command-letter, do_op_lem, register-taken, taken_low,
  register_low, ran,
}

-- Each run's command, the word of its number and the number.
pub record Use : Type 0 where
  pub command : Command
  pub word : List ℕ
  pub number : ℕ

pub register_run : List Use → ℕ → List Shown × ℕ
register_run [] v = ([], v)
register_run (u ∷ us) v =
    let now = register u.command u.number v in
    let rest = register_run us now.1 in (now.0 ∷ rest.0, rest.1)

-- The arguments of a use of the program.
pub arguments : Use → List (List ℕ)
arguments u = (letter u.command ∷ []) ∷ u.word ∷ []

-- How a run ends for the next one; a run that does not return prints nothing that counts.
unfoldable pub run_end : Driver → Finish → Done
run_end d (ended r) = r
run_end d abort_called = record { ret = 1; shown = []; driver = d }
run_end d stray_join = record { ret = 1; shown = []; driver = d }

-- Runs of the program one after the other, up to the first with a status other than 0.
unfoldable pub session : Machine → List Use → Driver → List Shown × ℕ
session m [] d = ([], d.quantum)
session m (u ∷ us) d =
    let r = run_end d (main m (arguments u) d) in
    let rest = session m us r.driver in
    if r.ret == 0 then (r.shown ++ rest.0, rest.1) else ([], r.driver.quantum)

module _ (m : Machine) (limit : ℕ) (h : Works m limit) where
  -- The program's arguments are those of the command.
  ran_main :
      (u : Use) (d : Driver)
      → m.atoi u.word ≡ u.number
      → u.number < 2 ^ 31
      → d.quantum < 2 ^ 31
      → (d' : Driver) × (main m (arguments u) d
          ≡ ended (record {
            ret = 0;
            shown = (register u.command u.number d.quantum).0 ∷ [];
            driver = d';
          }))
        × (d'.quantum ≡ (register u.command u.number d.quantum).1)
  unfolding main main_parsed arguments closing Ran
  ran_main u d number low lowq =
      let k = u.command in
      let n = taken k u.number in
      let (d', shows, leaves) = ran m limit h k n d (taken_low k u.number low) lowq in
      let same = register-taken k u.number d.quantum in
      let parsed : quantum_command m.atoi (arguments u) ≡ accepted (letter k) n =
        quantum_command-letter m.atoi k u.word ∙ ap (λ i. accepted (letter k) (taken k i)) number in
      (
        d',
        ap (λ p. main_parsed m p d) parsed
            ∙ ap
                (λ b.
                  if b
                  then closing m.closes (do_op m (letter k) n d)
                  else ended (record { ret = 1; shown = []; driver = d }))
                h.opens
            ∙ ap (closing m.closes) (do_op_lem m k n d ∙ ap ended shows)
            ∙ ap
                (λ b. closing b (
                  ended (record { ret = 0; shown = (register k n d.quantum).0 ∷ []; driver = d' })))
                h.closes
            ∙ ap (λ r. ended (record { ret = 0; shown = r.0 ∷ []; driver = d' })) same,
        leaves ∙ ap (λ r. r.1) same,
      )

  -- Runs of the program, each with one of the commands R, Q, G, T, S, X, H and i and a word that
  -- atoi reads as a number below 2^31, on a machine on which nothing fails, from a driver whose
  -- quantum is below 2^31: what they print, and the quantum they leave, are those of a register.
  pub session-register_run :
      (us : List Use) (d : Driver)
      → All (λ u. (m.atoi u.word ≡ u.number) × (u.number < 2 ^ 31)) us
      → d.quantum < 2 ^ 31
      → session m us d ≡ register_run us d.quantum
  unfolding session register_run run_end
  session-register_run [] d each low = refl
  session-register_run (u ∷ us) d each low =
      let (d', shows, leaves) = ran_main u d each.0.0 each.0.1 low in
      let low' = register_low u.command u.number d.quantum each.0.1 low in
      let rest = session-register_run us d' each.1 (subst (λ v. v < 2 ^ 31) (sym leaves) low') in
      rw (shows, rest, leaves) refl
