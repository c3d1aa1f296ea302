-- ===== src/Console/Lifetime/Unstuck.antt =====
-- A capturing run can be brought to its end from wherever it has got to.
use ipaversion.Base.{
  ℕ, suc, ◌+◌, ◌≡◌, ◌≢◌, refl, ap, ◌∙◌, sym, Option, some, List, ◌∷◌, ◌++◌, length, arith,
}
use ipaversion.Base.Text.{Text, codes, trim_space}
use ipaversion.Outcome.{done}
use ipaversion.Addon.Race.Exclusion.{IsBuy}
use ipaversion.Console.Input.{handle_input}
use ipaversion.Console.Rounds.{handle_input_exit}
use ipaversion.Console.Lifetime.{Exit, exited, Life, Lives}
use ipaversion.Console.Lifetime.Alone.{Setting, won, input_shell}
use ipaversion.Console.Lifetime.Finishing.{Finishes, point-Finishes}

module _ (g : Setting) where
  open g use {env, f, new_proxy, reads, flows, w}

  -- No order of the goroutines' steps gets a run stuck: wherever it is, if the proxy is created, some
  -- flow has the target URL and some line of the input is `exit`, steps of the main goroutine and of
  -- the flows bring it to an end that neither a signal nor `log.Fatal` makes.
  pub unstuck_lem :
      {c : Life} (k : ℕ) (before after : List (Option Text)) (line : Text)
      → Lives env f new_proxy reads flows w c
      → ((x : Exit) → c.point ≢ exited x)
      → new_proxy ≡ done tt
      → IsBuy (flows k)
      → reads ≡ before ++ (some line ∷ after)
      → trim_space line ≡ codes "exit"
      → Finishes g c
  unstuck_lem {c} k before after line l on created buys split is_exit =
      point-Finishes g k buys created
        (λ x. (
          suc (length before),
          λ m running.
              handle_input_exit env (won g x.flow).addon.history_versions
                (won g x.flow).addon.client_user_agent (m + suc (length before)) before after line
                (input_shell g x.flow).world is_exit (omega arith)
                (ap
                    (λ rs.
                      (handle_input env (won g x.flow).addon.history_versions
                        (won g x.flow).addon.client_user_agent (m + suc (length before)) rs
                        (input_shell g x.flow).world).0)
                    (sym split)
                  ∙ running),
        ))
        c.point l refl on
