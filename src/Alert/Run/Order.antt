-- ===== src/Alert/Run/Order.antt =====
-- The order in which a run of the alerter evaluates the events of the change stream.
use distributed_logs_aggrega.Base.{◌≡◌, refl, subst, ap, List, arith}
use distributed_logs_aggrega.Models.{Time}
use distributed_logs_aggrega.Alert.Services.{Services, Dispatcher}
use distributed_logs_aggrega.Alert.Rules.{LoadedRules}
use distributed_logs_aggrega.Alert.Run.{Change, watching, Alerter, Begun, begun, not_opened, begin}
use distributed_logs_aggrega.Alert.Run.Invariant.{decoded_events, InOrder}

module _ (sv : Services) where
  abbrev pub alerter_or : Alerter sv → Begun sv → Alerter sv
  alerter_or s (begun t) = t
  alerter_or s (not_opened e) = s

  pub begin-InOrder :
      (now : Time) (rules : LoadedRules) (cs : List Change) (d : Dispatcher sv) (s : Alerter sv)
      → begin sv now rules (watching cs) d ≡ begun s
      → InOrder sv (decoded_events sv cs) s
  unfolding begin
  begin-InOrder now rules cs d s e =
      subst (InOrder sv (decoded_events sv cs)) (ap (alerter_or s) e) (record {
        rest = decoded_events sv cs;
        whole = refl;
        ahead = λ on. refl;
        shut = λ off l. cc;
        is_open = λ on. refl;
        over = λ off l. cc;
        fits = omega arith;
        room = refl;
      })
