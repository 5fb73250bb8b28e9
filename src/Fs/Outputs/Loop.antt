-- ===== src/Fs/Outputs/Loop.antt =====
-- The loop of StageOutputs over all outputs.
use gonex.Common.{String, List, [], ◌∷◌, Option, none, some, ◌≡◌, ◌≢◌, refl, ◌∙◌, All}
use gonex.Fs.Paths.{CleanPath}
use gonex.Fs.Paths.Members.{IsOutside}
use gonex.Fs.Root.{Root, IsLawful, Failure}
use gonex.Fs.Transaction.{Transaction}
use gonex.Fs.Outputs.{PreparedOutput, stage_output, stage_loop}
use gonex.Fs.Outputs.Staging.{
  IsClear, IsStaging, Has, Has-Extends, stage_output-IsStaging, stage_output-view, stage_output-Has,
  stage_output-Extends,
}

module _ (R : Root) (L : IsLawful R) (stage backup : String) where
  turn_then :
      (P : Option Failure × Transaction × R.State → Type 0)
      (r : Option Failure × Transaction × R.State) (rest : Option Failure × Transaction × R.State)
      → (r.0 ≢ none → P r)
      → (r.0 ≡ none → P rest)
      → P (elim r.0 [ none ↦ rest | some err ↦ (some err, r.1, r.2) ])
  turn_then P (none, t, s) rest failing going = going refl
  turn_then P (some e, t, s) rest failing going = failing (λ e. cc)

  pub stage_loop-IsStaging :
      (outputs : List PreparedOutput) (t : Transaction) (s : R.State)
      → All (IsClear stage backup) outputs
      → IsStaging R L stage backup t s
      → IsStaging R L stage backup (stage_loop R outputs t s).1 (stage_loop R outputs t s).2
  unfolding stage_loop
  stage_loop-IsStaging [] t s _ h = h
  stage_loop-IsStaging (output ∷ outputs) t s (clear, cs) h =
      let r = stage_output R output t s in
      let turn = stage_output-IsStaging R L stage backup output t s clear h in
      turn_then (λ r. IsStaging R L stage backup r.1 r.2) r (stage_loop R outputs r.1 r.2)
        (λ failed. turn) (λ ok. stage_loop-IsStaging outputs r.1 r.2 cs turn)

  pub stage_loop-view :
      (outputs : List PreparedOutput) (t : Transaction) (s : R.State) (q : CleanPath)
      → All (IsClear stage backup) outputs
      → IsStaging R L stage backup t s
      → IsOutside stage q
      → R.view (stage_loop R outputs t s).2 q ≡ R.view s q
  unfolding stage_loop
  stage_loop-view [] t s q _ h in_project = refl
  stage_loop-view (output ∷ outputs) t s q (clear, cs) h in_project =
      let r = stage_output R output t s in
      let turn = stage_output-view R L stage backup output t s q clear h in_project in
      turn_then (λ r. R.view r.2 q ≡ R.view s q) r (stage_loop R outputs r.1 r.2) (λ failed. turn)
        (λ ok.
          stage_loop-view outputs r.1 r.2 q cs
            (stage_output-IsStaging R L stage backup output t s clear h) in_project
          ∙ turn)

  stage_loop-keeps :
      (outputs : List PreparedOutput) (t : Transaction) (s : R.State) (other : PreparedOutput)
      → All (IsClear stage backup) outputs
      → IsStaging R L stage backup t s
      → Has R L stage backup t s other
      → Has R L stage backup (stage_loop R outputs t s).1 (stage_loop R outputs t s).2 other
  unfolding stage_loop
  stage_loop-keeps [] t s other _ h has = has
  stage_loop-keeps (output ∷ outputs) t s other (clear, cs) h has =
      let r = stage_output R output t s in
      let turn =
        Has-Extends R L stage backup other t r.1 s r.2
          (stage_output-Extends R L stage backup output t s clear h) has in
      turn_then (λ r. Has R L stage backup r.1 r.2 other) r (stage_loop R outputs r.1 r.2)
        (λ failed. turn)
        (λ ok.
          stage_loop-keeps outputs r.1 r.2 other cs
            (stage_output-IsStaging R L stage backup output t s clear h) turn)

  -- A run without an error has all outputs.
  pub stage_loop-Has :
      (outputs : List PreparedOutput) (t : Transaction) (s : R.State)
      → All (IsClear stage backup) outputs
      → IsStaging R L stage backup t s
      → (stage_loop R outputs t s).0 ≡ none
      → All (Has R L stage backup (stage_loop R outputs t s).1 (stage_loop R outputs t s).2) outputs
  unfolding stage_loop
  stage_loop-Has [] t s _ h = λ ok. tt
  stage_loop-Has (output ∷ outputs) t s (clear, cs) h =
      let r = stage_output R output t s in
      let staging = stage_output-IsStaging R L stage backup output t s clear h in
      turn_then (λ r. r.0 ≡ none → All (Has R L stage backup r.1 r.2) (output ∷ outputs)) r
        (stage_loop R outputs r.1 r.2) (λ failed ok. absurd (failed ok))
        (λ ok rest. (
          stage_loop-keeps outputs r.1 r.2 output cs staging
              (stage_output-Has R L stage backup output t s clear h ok),
          stage_loop-Has outputs r.1 r.2 cs staging rest,
        ))
