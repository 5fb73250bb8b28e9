-- ===== src/Fs/Outputs/Staging.antt =====
-- The loop of StageOutputs: what it leaves staged, and that it leaves the files of the project alone.
use gonex.Common.{
  String, [], ◌∷◌, Bool, true, false, Option, none, some, ◌≡◌, inl, inr, refl, ◌∙◌, arith, All,
  All-append, if_cases,
}
use gonex.Fs.Paths.{CleanPath, clean_project_relative}
use gonex.Fs.Paths.Members.{mem, IsOutside, path_eq_refl}
use gonex.Fs.Root.{Root, IsLawful, Failure, file, join}
use gonex.Fs.Transaction.{Transaction}
use gonex.Fs.Transaction.Prepared.{IsPrepared, Written, Deleted, write_stages, write-staged}
use gonex.Fs.Transaction.Deleting.{delete_stages, mem-snoc}
use gonex.Fs.Outputs.{PreparedOutput, stage_output}

-- The clean path of an output lies in none of the two directories of a transaction.
abbrev pub IsClear : String → String → PreparedOutput → Type 0
IsClear stage backup output =
    (clean : CleanPath)
    → clean_project_relative output.path ≡ some clean
    → IsOutside stage clean × IsOutside backup clean

module _ (R : Root) (L : IsLawful R) (stage backup : String) where
  -- What the loop of StageOutputs keeps true.
  pub record IsStaging (t : Transaction) (s : R.State) : Type 0 where
    pub prepared : IsPrepared R t s
    pub same_stage : t.stage ≡ stage
    pub no_backup : t.backup ≡ none
    pub written : All (IsOutside backup) t.writes
    pub deleted : All (IsOutside backup) t.deletes

  abbrev pub Listed : Bool → CleanPath → String → Transaction → R.State → Type 0
  Listed true clean content t s = mem clean t.deletes ≡ true
  Listed false clean content t s =
      (mem clean t.writes ≡ true) × (R.view s (join t.stage clean) ≡ some (file content))

  -- The transaction has the output.
  unfoldable pub Has : Transaction → R.State → PreparedOutput → Type 0
  Has t s output =
      (clean : CleanPath) × (clean_project_relative output.path ≡ some clean)
      × Listed output.is_delete clean output.content t s

  stage_of :
      (output : PreparedOutput) (t : Transaction)
      → t.stage ≡ stage
      → IsClear stage backup output
      → (clean : CleanPath) → clean_project_relative output.path ≡ some clean
      → IsOutside t.stage clean
  stage_of output t same clear clean cleaned = rw same (clear clean cleaned).0

  Written-IsStaging :
      (relative content : String) (t : Transaction) (s : R.State)
      (r : Option Failure × Transaction × R.State)
      → IsStaging t s
      → ((clean : CleanPath)
          → clean_project_relative relative ≡ some clean
          → IsOutside backup clean)
      → IsPrepared R r.1 r.2
      → Written R relative content t r
      → IsStaging r.1 r.2
  Written-IsStaging relative content t s r h out prepared (inl (_, same)) = record {
    prepared = prepared;
    same_stage = rw same h.same_stage;
    no_backup = rw same h.no_backup;
    written = rw same h.written;
    deleted = rw same h.deleted;
  }
  Written-IsStaging relative content t s r h out prepared (inr (clean, cleaned, _, same, _)) =
      record {
        prepared = prepared;
        same_stage = rw same h.same_stage;
        no_backup = rw same h.no_backup;
        written = rw same (out clean cleaned, h.written);
        deleted = rw same h.deleted;
      }

  Deleted-IsStaging :
      (relative : String) (t : Transaction) (s : R.State)
      (r : Option Failure × Transaction × R.State)
      → IsStaging t s
      → ((clean : CleanPath)
          → clean_project_relative relative ≡ some clean
          → IsOutside backup clean)
      → IsPrepared R r.1 r.2
      → Deleted R relative t r
      → IsStaging r.1 r.2
  Deleted-IsStaging relative t s r h out prepared (inl (_, same)) = record {
    prepared = prepared;
    same_stage = rw same h.same_stage;
    no_backup = rw same h.no_backup;
    written = rw same h.written;
    deleted = rw same h.deleted;
  }
  Deleted-IsStaging relative t s r h out prepared (inr (clean, cleaned, _, same)) = record {
    prepared = prepared;
    same_stage = rw same h.same_stage;
    no_backup = rw same h.no_backup;
    written = rw same h.written;
    deleted = rw same (All-append _ t.deletes (clean ∷ []) h.deleted (out clean cleaned, tt));
  }

  pub stage_output-IsStaging :
      (output : PreparedOutput) (t : Transaction) (s : R.State)
      → IsClear stage backup output
      → IsStaging t s
      → IsStaging (stage_output R output t s).1 (stage_output R output t s).2
  unfolding stage_output
  stage_output-IsStaging output t s clear h =
      let outside = stage_of output t h.same_stage clear in
      let out : (clean : CleanPath)
          → clean_project_relative output.path ≡ some clean
          → IsOutside backup clean =
        λ clean cleaned. (clear clean cleaned).1 in
      if_cases (λ (r : Option Failure × Transaction × R.State). IsStaging r.1 r.2) output.is_delete
        _ _
        (λ deleting.
          let (prepared, _, outcome) = delete_stages R L output.path t s [] h.prepared outside in
          Deleted-IsStaging output.path t s _ h out prepared outcome)
        (λ writing.
          let (prepared, _, outcome) =
            write_stages R L output.path output.content 0o644 t s [] h.prepared outside refl in
          Written-IsStaging output.path output.content t s _ h out prepared outcome)

  pub stage_output-view :
      (output : PreparedOutput) (t : Transaction) (s : R.State) (q : CleanPath)
      → IsClear stage backup output
      → IsStaging t s
      → IsOutside stage q
      → R.view (stage_output R output t s).2 q ≡ R.view s q
  unfolding stage_output
  stage_output-view output t s q clear h in_project =
      let outside = stage_of output t h.same_stage clear in
      if_cases (λ (r : Option Failure × Transaction × R.State). R.view r.2 q ≡ R.view s q)
        output.is_delete _ _
        (λ deleting. (delete_stages R L output.path t s q h.prepared outside).1)
        (λ writing.
          (write_stages R L output.path output.content 0o644 t s q h.prepared outside
            (rw h.same_stage in_project)).1)

  Has-Written :
      (output : PreparedOutput) (t : Transaction) (r : Option Failure × Transaction × R.State)
      → output.is_delete ≡ false
      → r.0 ≡ none
      → Written R output.path output.content t r
      → Has r.1 r.2 output
  unfolding Has
  Has-Written output t r writing ok (inl (failed, _)) = absurd (failed ok)
  Has-Written output t r writing ok (inr (clean, cleaned, _, same, stands)) =
      (clean, cleaned, rw (writing, same) (ground (arith, path_eq_refl clean), stands))

  Has-Deleted :
      (output : PreparedOutput) (t : Transaction) (r : Option Failure × Transaction × R.State)
      → output.is_delete ≡ true
      → r.0 ≡ none
      → Deleted R output.path t r
      → Has r.1 r.2 output
  unfolding Has
  Has-Deleted output t r deleting ok (inl (failed, _)) = absurd (failed ok)
  Has-Deleted output t r deleting ok (inr (clean, cleaned, _, same)) = (
    clean,
    cleaned,
    rw (deleting, same) (mem-snoc clean t.deletes clean ∙ ground (arith, path_eq_refl clean)),
  )

  -- A successful turn has the output.
  pub stage_output-Has :
      (output : PreparedOutput) (t : Transaction) (s : R.State)
      → IsClear stage backup output
      → IsStaging t s
      → (stage_output R output t s).0 ≡ none
      → Has (stage_output R output t s).1 (stage_output R output t s).2 output
  unfolding stage_output
  stage_output-Has output t s clear h =
      let outside = stage_of output t h.same_stage clear in
      if_cases (λ (r : Option Failure × Transaction × R.State). r.0 ≡ none → Has r.1 r.2 output)
        output.is_delete _ _
        (λ deleting ok.
          Has-Deleted output t _ deleting ok
            (delete_stages R L output.path t s [] h.prepared outside).2)
        (λ writing ok.
          Has-Written output t _ writing ok
            (write_stages R L output.path output.content 0o644 t s [] h.prepared outside refl).2)

  -- The second transaction has staged what the first one has, and perhaps more.
  pub record Extends (t : Transaction) (s : R.State) (t1 : Transaction) (s1 : R.State)
      : Type 0 where
    pub same_stage : t1.stage ≡ t.stage
    pub writes : (x : CleanPath) → mem x t.writes ≡ true → mem x t1.writes ≡ true
    pub deletes : (x : CleanPath) → mem x t.deletes ≡ true → mem x t1.deletes ≡ true
    pub views :
        (x : CleanPath)
        → mem x t.writes ≡ true
        → R.view s1 (join t.stage x) ≡ R.view s (join t.stage x)

  Listed-Extends :
      (deletes : Bool) (clean : CleanPath) (content : String) (t t1 : Transaction) (s s1 : R.State)
      → Extends t s t1 s1
      → Listed deletes clean content t s
      → Listed deletes clean content t1 s1
  Listed-Extends true clean content t t1 s s1 h k = h.deletes clean k
  Listed-Extends false clean content t t1 s s1 h (listed, stands) =
      (h.writes clean listed, rw h.same_stage (h.views clean listed ∙ stands))

  pub Has-Extends :
      (other : PreparedOutput) (t t1 : Transaction) (s s1 : R.State)
      → Extends t s t1 s1
      → Has t s other
      → Has t1 s1 other
  unfolding Has
  Has-Extends other t t1 s s1 h (clean, cleaned, k) =
      (clean, cleaned, Listed-Extends other.is_delete clean other.content t t1 s s1 h k)

  Written-Extends :
      (relative content : String) (t : Transaction) (s : R.State)
      (r : Option Failure × Transaction × R.State)
      → ((x : CleanPath)
          → mem x t.writes ≡ true
          → R.view r.2 (join t.stage x) ≡ R.view s (join t.stage x))
      → Written R relative content t r
      → Extends t s r.1 r.2
  Written-Extends relative content t s r views (inl (_, same)) = record {
    same_stage = rw same refl;
    writes = λ x h. rw same h;
    deletes = λ x h. rw same h;
    views = views;
  }
  Written-Extends relative content t s r views (inr (clean, _, _, same, _)) = record {
    same_stage = rw same refl;
    writes = λ x h. rw same (ground arith);
    deletes = λ x h. rw same h;
    views = views;
  }

  Deleted-Extends :
      (relative : String) (t : Transaction) (s : R.State)
      (r : Option Failure × Transaction × R.State)
      → ((q : CleanPath) → R.view r.2 q ≡ R.view s q)
      → Deleted R relative t r
      → Extends t s r.1 r.2
  Deleted-Extends relative t s r views (inl (_, same)) = record {
    same_stage = rw same refl;
    writes = λ x h. rw same h;
    deletes = λ x h. rw same h;
    views = λ x h. views (join t.stage x);
  }
  Deleted-Extends relative t s r views (inr (clean, _, _, same)) = record {
    same_stage = rw same refl;
    writes = λ x h. rw same h;
    deletes = λ x h. rw same (mem-snoc x t.deletes clean ∙ ground arith);
    views = λ x h. views (join t.stage x);
  }

  pub stage_output-Extends :
      (output : PreparedOutput) (t : Transaction) (s : R.State)
      → IsClear stage backup output
      → IsStaging t s
      → Extends t s (stage_output R output t s).1 (stage_output R output t s).2
  unfolding stage_output
  stage_output-Extends output t s clear h =
      let outside = stage_of output t h.same_stage clear in
      if_cases (λ (r : Option Failure × Transaction × R.State). Extends t s r.1 r.2)
        output.is_delete _ _
        (λ deleting.
          Deleted-Extends output.path t s _
            (λ q. (delete_stages R L output.path t s q h.prepared outside).1)
            (delete_stages R L output.path t s [] h.prepared outside).2)
        (λ writing.
          Written-Extends output.path output.content t s _
            (λ x listed. write-staged R L output.path output.content 0o644 t s x listed)
            (write_stages R L output.path output.content 0o644 t s [] h.prepared outside refl).2)
