-- ===== src/Tests/Register.antt =====
-- A table with one worker, and the registrations of it and of another machine.
use inferna_next.Base.{
  List, Option, [], ap, arith, if◌then◌else◌, inl, inr, none, refl, some, sym, ◌∙◌, ◌∷◌, ◌≡◌,
}
use inferna_next.Base.Int.{pos, ℤ}
use inferna_next.Base.Text.{Text, codes}
use inferna_next.Base.Strings.{int_from, isdigit}
use inferna_next.Base.Results.{Result, err, ok}
use inferna_next.Models.{Worker}
use inferna_next.Workers.Register.{
  Cluster, RegisterError, RegisterRequest, register_worker, too_old,
}
use inferna_next.Workers.Register.Unique.{AreUnique}
use inferna_next.Workers.Register.Registered.{IsUnusedId}
use inferna_next.Workers.Register.Outcome.{RegisterOutcome, register_worker-RegisterOutcome}
use inferna_next.Tests.Placement.{worker_a}
use inferna_next.Tests.Upstream.{small_platform, production}

digits_ℤ : Text → Option ℤ
unfolding isdigit int_from
digits_ℤ t = if isdigit t then some (pos (int_from 0 t)) else none

abbrev table : List Worker
table = worker_a ∷ []

abbrev clusters : List Cluster
clusters = record { id = 1; name = codes "default" } ∷ []

abbrev asking : Text → Text → Text → RegisterRequest
asking version name hostname = record {
  cluster_token = codes "t";
  protocol_version = 1;
  version = version;
  cluster_name = [];
  address = [];
  worker_name = name;
  hostname = hostname;
}

answer_to : RegisterRequest → Result RegisterError (List Worker × Worker)
unfolding register_worker digits_ℤ
answer_to q =
    register_worker small_platform production (codes "t") digits_ℤ (λ t. t) (codes "k") 13 200 q
      clusters table

-- The machine of worker a has another hostname: its row follows.
moved_test :
    answer_to (asking (codes "0.2") (codes "a") (codes "h"))
    ≡ ok (
      record worker_a {
        hostname = codes "h";
        token_hash = codes "k";
        address = none;
        last_seen_at = some 200;
        version = some (codes "0.2");
      }
          ∷ [],
      record worker_a {
        hostname = codes "h";
        token_hash = codes "k";
        address = none;
        last_seen_at = some 200;
        version = some (codes "0.2");
      },
    )
unfolding answer_to
moved_test = refl

old_test : answer_to (asking (codes "0.1.9") (codes "a") (codes "h")) ≡ err too_old
unfolding answer_to
old_test = refl

table-AreUnique : AreUnique table
table-AreUnique w (inl e) v (inl f) other same = absurd (other (ap (λ r. r.id) (f ∙ sym e)))
table-AreUnique w (inr m) v n other same = absurd m
table-AreUnique w (inl e) v (inr n) other same = absurd n

table-IsUnusedId : IsUnusedId 13 table
table-IsUnusedId v (inr m) f = absurd m
table-IsUnusedId v (inl e) f = clash (sym (ap (λ r. r.id) e) ∙ f)
  where
    clash : worker_a.id ≡ 13 → ⊥
    clash g = omega arith

register_worker-RegisterOutcome_example :
    RegisterOutcome small_platform production
      (codes "t")
      digits_ℤ
      (λ t. t)
      (codes "k")
      13
      200
      (asking (codes "0.2") [] (codes "h"))
      clusters
      table
      (register_worker small_platform production
        (codes "t")
        digits_ℤ
        (λ t. t)
        (codes "k")
        13
        200
        (asking (codes "0.2") [] (codes "h"))
        clusters
        table)
register_worker-RegisterOutcome_example =
    register_worker-RegisterOutcome small_platform production (codes "t") digits_ℤ (λ t. t)
      (codes "k") 13 200 (asking (codes "0.2") [] (codes "h")) clusters table table-AreUnique
      table-IsUnusedId
