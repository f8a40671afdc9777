-- ===== src/Policy/Resolve/Precedence.antt =====
-- Which of the rules that match a file decides.
use yuhi.Prelude.{
  ℕ, ◌+++◌, get_or, ◌≡◌, refl, sym, subst, ◌∙◌, ◌⊎◌, inl, inr, Option, none, some, List, [], ◌∷◌,
  arith, Option-cases, Bool-cases,
}
use Prim.Native.Nat.{max}
use yuhi.Policy.Action.{action_rank, action_name}
use yuhi.Policy.Match.{MatchableFile, PolicyRule, Picomatch, Via, rule_matches}
use yuhi.Policy.Verdict.{Verdict, via_name, becomes_winner, apply_match, apply_rules}

-- The higher of the rank of a rule's action, if the rule matched, and another rank.
abbrev pub rank_if_matched : Option Via → PolicyRule → ℕ → ℕ
rank_if_matched none rule rest = rest
rank_if_matched (some via) rule rest = max (action_rank rule.action) rest

apply_match-rank :
    (v : Verdict) (rule : PolicyRule) (o : Option Via) (rest : ℕ)
    → max (action_rank (apply_match v rule o).action) rest
      ≡ max (action_rank v.action) (rank_if_matched o rule rest)
unfolding apply_match
apply_match-rank v rule none rest = refl
apply_match-rank v rule (some via) rest = ground arith

module _ (picomatch : Picomatch) (file : MatchableFile) where
  -- The highest rank among the rules that match the file.
  unfoldable pub strictest_match : List PolicyRule → ℕ
  strictest_match [] = 0
  strictest_match (rule ∷ rules) =
      rank_if_matched (rule_matches picomatch rule file) rule (strictest_match rules)

  -- Whatever the order of the rules, the action is as restrictive as the strictest of the action
  -- that the file had and the rules that match it, and no more.
  pub apply_rules-strictest :
      (rules : List PolicyRule) (v : Verdict)
      → action_rank (apply_rules picomatch file rules v).action
        ≡ max (action_rank v.action) (strictest_match rules)
  unfolding apply_rules strictest_match
  apply_rules-strictest [] v = omega arith
  apply_rules-strictest (rule ∷ rules) v =
      apply_rules-strictest rules (apply_match v rule (rule_matches picomatch rule file))
      ∙ apply_match-rank v rule (rule_matches picomatch rule file) (strictest_match rules)

  -- The verdict that a rule which matches the file gives, as a whole.
  pub record IsFrom (rule : PolicyRule) (v : Verdict) : Type 0 where
    pub via : Via
    pub matched : rule_matches picomatch rule file ≡ some via
    pub action : v.action ≡ rule.action
    pub name : v.winning_rule ≡ rule.name
    pub reason :
        v.reason
        ≡ get_or rule.reason (
            "Matched rule \""
            +++ (rule.name
                +++ ("\" via "
                    +++ (via_name via +++ (" → " +++ (action_name rule.action +++ "."))))))
    pub destinations : v.destinations ≡ rule.destinations
    pub processors : v.processors ≡ rule.processors

  -- One of the rules gave the verdict.
  pub data IsDecided : List PolicyRule → Verdict → Type 0 where
    here :
        {rule : PolicyRule} {rules : List PolicyRule} {v : Verdict}
        → IsFrom rule v
        → IsDecided (rule ∷ rules) v
    there :
        {rule : PolicyRule} {rules : List PolicyRule} {v : Verdict}
        → IsDecided rules v
        → IsDecided (rule ∷ rules) v

  apply_match-IsFrom :
      (v : Verdict) (rule : PolicyRule) (via : Via)
      → rule_matches picomatch rule file ≡ some via
      → (apply_match v rule (some via) ≡ v) ⊎ IsFrom rule (apply_match v rule (some via))
  unfolding apply_match
  apply_match-IsFrom v rule via m = elim (Bool-cases (becomes_winner v rule)) [
    | inl won ↦ inr (record {
      via = via;
      matched = m;
      action = ground arith;
      name = ground arith;
      reason = ground arith;
      destinations = ground arith;
      processors = ground arith;
    })
    | inr lost ↦ inl (ground arith)
  ]

  step-IsFrom :
      (v : Verdict) (rule : PolicyRule)
      → (apply_match v rule (rule_matches picomatch rule file) ≡ v)
        ⊎ IsFrom rule (apply_match v rule (rule_matches picomatch rule file))
  step-IsFrom v rule = elim (Option-cases (rule_matches picomatch rule file)) [
    | inl missed ↦ inl (rw missed (unfold apply_match in refl))
    | inr (via, m) ↦ rw m (apply_match-IsFrom v rule via m)
  ]

  -- Either no rule decides and the verdict is untouched, or one rule that matches the file gave the
  -- whole verdict: its action, its name, its reason, its destinations and its processors together.
  pub apply_rules-IsDecided :
      (rules : List PolicyRule) (v : Verdict)
      → (apply_rules picomatch file rules v ≡ v)
        ⊎ IsDecided rules (apply_rules picomatch file rules v)
  unfolding apply_rules
  apply_rules-IsDecided [] v = inl refl
  apply_rules-IsDecided (rule ∷ rules) v =
      elim (apply_rules-IsDecided rules (apply_match v rule (rule_matches picomatch rule file))) [
        | inr later ↦ inr (there later)
        | inl last ↦ elim (step-IsFrom v rule) [
          | inl same ↦ inl (last ∙ same)
          | inr from ↦ inr (here (subst (IsFrom rule) (sym last) from))
        ]
      ]
