-- ===== src/Server/Soundness/Events.antt =====
-- The handlers (src/handlers/ServerHandlers.cpp) and what the transport calls, `session_handle`,
-- `connect_handle` and `disconnect_handle` (src/core/Server.cpp), keep the tables sound.
use asinc_roulette.Base.{
  ℕ, String, ◌≡◌, Bool, true, false, arith, All, Option-cases, inl, inr, string_eq, nat_eq, subst,
}
use asinc_roulette.Base.Map.{lookup, lookup-All}
use asinc_roulette.Failure.{Result, ok, err, is_caught}
use asinc_roulette.Handlers.{select}
use asinc_roulette.Json.{Json}
use asinc_roulette.Storage.{Sqlite}
use asinc_roulette.Server.State.{Action, Content, pure, lift, ◌>>=◌}
use asinc_roulette.Server.Keeps.{
  Keeps-bind, Keeps-bind-lift, Keeps-if, Keeps-pure, Keeps-lift, keeps_rules,
}
use asinc_roulette.Server.Dispatch.{
  Handler, text, number, write_handler, bet_handler, set_handler, pair_handler, kick_handler,
  server_handlers, execute, handle_error, answer_error, execute_and_answer, session_handle,
  connect_handle, disconnect_handle,
}
use asinc_roulette.Server.Soundness.{
  KeepsSound, send-IsSound, get_permission-IsSound, add_user-IsSound,
}
use asinc_roulette.Server.Soundness.Commands.{
  do_signin-IsSound, do_signout-IsSound, do_signup-IsSound, do_join-IsSound, do_create-IsSound,
  do_leave-IsSound, do_write-IsSound, do_write_to-IsSound, do_tables-IsSound, do_users-IsSound,
  do_sync-IsSound, do_set_permission-IsSound, do_kick-IsSound, do_disconnect-IsSound,
  do_balance-IsSound, do_bet-IsSound, do_bets-IsSound, do_spin-IsSound,
}

ruleset commands = (
  keeps_rules, do_signin-IsSound, do_signout-IsSound, do_signup-IsSound, do_join-IsSound,
  do_create-IsSound, do_leave-IsSound, do_write-IsSound, do_write_to-IsSound, do_tables-IsSound,
  do_users-IsSound, do_sync-IsSound, do_set_permission-IsSound, do_kick-IsSound, do_balance-IsSound,
  do_bet-IsSound, do_bets-IsSound, do_spin-IsSound,
)

module _ {D J : Type 0} ⦃json : Json J⦄ where
  text-IsSound : (body : J) (name : String) → KeepsSound {D = D} (text body name)
  unfolding text
  text-IsSound body name = search keeps_rules

  number-IsSound : (body : J) (name : String) → KeepsSound {D = D} (number body name)
  unfolding number
  number-IsSound body name = search keeps_rules

module _ {D J : Type 0} ⦃sql : Sqlite D⦄ ⦃json : Json J⦄ where
  abbrev HandlerIsSound : Handler D J → Type 0
  HandlerIsSound h = (rand id : ℕ) (body : J) → KeepsSound {D = D} (h rand id body)

  write_handler-IsSound : HandlerIsSound write_handler
  unfolding write_handler
  write_handler-IsSound rand id body = search (commands, text-IsSound) depth 7

  bet_handler-IsSound : HandlerIsSound bet_handler
  unfolding bet_handler
  bet_handler-IsSound rand id body = search (commands, text-IsSound, number-IsSound) depth 7

  set_handler-IsSound : HandlerIsSound set_handler
  unfolding set_handler
  set_handler-IsSound rand id body = search (commands, text-IsSound, number-IsSound) depth 7

  kick_handler-IsSound : HandlerIsSound kick_handler
  unfolding kick_handler
  kick_handler-IsSound rand id body = search (commands, text-IsSound) depth 7

  pair_handler-IsSound :
      (first second : String) (command : ℕ → String → String → Action D Unit)
      → ((id : ℕ) (a b : String) → KeepsSound {D = D} (command id a b))
      → HandlerIsSound (pair_handler first second command)
  unfolding pair_handler
  pair_handler-IsSound first second command k rand id body =
      search (keeps_rules, text-IsSound, k) depth 7

module _ {D : Type 0} where
  stay-IsSound :
      (m : Action D Unit) → KeepsSound {D = D} m → KeepsSound {D = D} (m >>= λ _. pure false)
  stay-IsSound m k = Keeps-bind _ _ k (λ _. Keeps-pure false)

  answer_error-IsSound :
      (id : ℕ) (command : String) (r : Result Bool) → KeepsSound {D = D} (answer_error id command r)
  unfolding handle_error
  answer_error-IsSound id command (ok close) = Keeps-pure close
  answer_error-IsSound id command (err e) =
      Keeps-if (is_caught e) (handle_error id command e >>= λ _. pure false) (lift (err e))
        (λ _. stay-IsSound _ (send-IsSound id "error" command (Content.message e)))
        (λ _. Keeps-lift (err e))

module _ (D J : Type 0) ⦃sql : Sqlite D⦄ ⦃json : Json J⦄ where
  server_handlers-IsSound :
      All (λ (en : String × (ℕ × Handler D J)). HandlerIsSound en.1.1) server_handlers
  unfolding server_handlers
  server_handlers-IsSound = (
    pair_handler-IsSound _ _ _ do_signin-IsSound,
    (
      (λ rand id body. stay-IsSound _ (do_signout-IsSound id)),
      (
        pair_handler-IsSound _ _ _ do_join-IsSound,
        (
          pair_handler-IsSound _ _ _ do_create-IsSound,
          (
            (λ rand id body. stay-IsSound _ (do_leave-IsSound id)),
            (
              (λ rand id body. stay-IsSound _ (do_tables-IsSound id)),
              (
                (λ rand id body. stay-IsSound _ (do_users-IsSound id)),
                (
                  write_handler-IsSound,
                  (
                    (λ rand id body. Keeps-pure true),
                    (
                      (λ rand id body. stay-IsSound _ (do_sync-IsSound id)),
                      (
                        pair_handler-IsSound _ _ _ do_signup-IsSound,
                        (
                          set_handler-IsSound,
                          (
                            (λ rand id body. stay-IsSound _ (do_spin-IsSound rand id)),
                            (
                              bet_handler-IsSound,
                              (
                                (λ rand id body. stay-IsSound _ (do_bets-IsSound id)),
                                (
                                  (λ rand id body. stay-IsSound _ (do_balance-IsSound id)),
                                  (kick_handler-IsSound, tt),
                                ),
                              ),
                            ),
                          ),
                        ),
                      ),
                    ),
                  ),
                ),
              ),
            ),
          ),
        ),
      ),
    ),
  )

  select-IsSound :
      (permission : ℕ) (command : String) (h : Handler D J)
      → select server_handlers permission command ≡ ok h
      → HandlerIsSound h
  unfolding select
  select-IsSound permission command h e =
      elim (Option-cases (lookup command (server_handlers {D = D} {J = J}))) [
        | inl missing ↦ absurd (ground arith)
        | inr ((needed, h'), found) ↦
            let same : h' ≡ h = ground arith in
            subst HandlerIsSound same (
              lookup-All (λ (en : String × (ℕ × Handler D J)). HandlerIsSound en.1.1) command
                server_handlers server_handlers-IsSound found)
      ]

  execute-IsSound :
      (rand id : ℕ) (command : String) (body : J)
      → KeepsSound {D = D} (execute rand id command body)
  unfolding execute
  execute-IsSound rand id command body = Keeps-bind _ _ (get_permission-IsSound id) λ permission.
      Keeps-bind-lift (select server_handlers permission command) _
        λ h e. select-IsSound permission command h e rand id body

  execute_and_answer-IsSound :
      (rand id : ℕ) (command : String) (body : J)
      → KeepsSound {D = D} (execute_and_answer rand id command body)
  unfolding execute_and_answer
  execute_and_answer-IsSound rand id command body = record {
    at = λ s h.
        let (r, s') = execute rand id command body s in
        (answer_error-IsSound id command r).at s' ((execute-IsSound rand id command body).at s h);
  }

  -- Whatever a client sends, also if its handler throws, all tables stay sound.
  pub session_handle-IsSound :
      (rand id : ℕ) (message : String) → KeepsSound {D = D} (session_handle J rand id message)
  unfolding session_handle
  session_handle-IsSound rand id message =
      let executed =
        λ (command : String) (body : J). execute_and_answer-IsSound rand id command body in
      search (keeps_rules, text-IsSound, executed) depth 8

module _ {D : Type 0} ⦃sql : Sqlite D⦄ where
  pub connect_handle-IsSound : (id : ℕ) → KeepsSound {D = D} (connect_handle id)
  unfolding connect_handle
  connect_handle-IsSound id = search (keeps_rules, add_user-IsSound) depth 7

  pub disconnect_handle-IsSound : (id : ℕ) → KeepsSound {D = D} (disconnect_handle id)
  unfolding disconnect_handle
  disconnect_handle-IsSound id = search (keeps_rules, do_disconnect-IsSound) depth 7
