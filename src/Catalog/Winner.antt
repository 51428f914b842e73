-- ===== src/Catalog/Winner.antt =====
-- The rule that `selectWinningRule` of domain/ruleSelection.ts of services/catalog picks.
use atlas_commerce.Prelude.{◌≡◌, ◌⊎◌, true, some, List, arith, All, Member}
use atlas_commerce.Prelude.Sorted.{first-sort_by}
use atlas_commerce.Catalog.Pricing.{rule_before, select_winning_rule}
use atlas_commerce.Catalog.Types.{PriceRule}

rule_before_total : (x y : PriceRule) → (rule_before x y ≡ true) ⊎ (rule_before y x ≡ true)
rule_before_total x y = ground arith

rule_before_trans :
    (x y z : PriceRule) → rule_before x y ≡ true → rule_before y z ≡ true → rule_before x z ≡ true
rule_before_trans x y z h k = ground arith

-- The winning rule is one of the rules, and none of them has a higher priority, nor the same priority
-- and a later creation, nor the same of both and a greater id.
pub select_winning_rule_best :
    (rules : List PriceRule) (m : PriceRule)
    → select_winning_rule rules ≡ some m
    → Member m rules × All (λ r. rule_before m r ≡ true) rules
unfolding select_winning_rule
select_winning_rule_best rules m h =
    first-sort_by rule_before rules m (rule_before_total, rule_before_trans) h
