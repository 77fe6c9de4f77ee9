-- ===== src/Commands/Decisions.antt =====
-- Which comments decide_comment_command executes: scripts/reviewer_bot_core/comment_command_policy.py.
use safety_critical_rust_cod.Common.{
  ◌==◌, if◌then◌else◌, ap, sym, subst, Bool-cases, inl, inr, ◌≡◌, ◌≢◌, refl, String, Bool, true,
  false, eq_iff, Option, none, some, List, [], ◌∷◌,
}
use safety_critical_rust_cod.Routing.{ActorClass, repo_user_principal}
use safety_critical_rust_cod.Commands.{
  InlineResponse, inline_response, defer_privileged_handoff, OrdinaryCommandId, pass, away,
  feedback, done, label, sync_members, queue, commands, claim, release, rectify, assign_specific,
  assign_from_queue, value, OrdinaryCommand, CommentCommandDecision, ignore,
  execute_ordinary_command, Request, Classified, later_commands, decide_command,
  decide_comment_command,
}

-- The arguments that a command takes: /away takes some, /feedback none, the others any.
abbrev pub TakesArguments : OrdinaryCommandId → List String → Type 0
TakesArguments away args = args ≢ []
TakesArguments feedback args = args ≡ []
TakesArguments _ args = Unit

-- The commands that act on the assignment of the issue.
abbrev pub needs_assignment : OrdinaryCommandId → Bool
needs_assignment feedback = false
needs_assignment sync_members = false
needs_assignment queue = false
needs_assignment commands = false
needs_assignment rectify = false
needs_assignment _ = true

abbrev pub ordinary : Request → OrdinaryCommandId → List String → OrdinaryCommand
ordinary request id args = record {
  command_id = id;
  issue_number = request.issue_number;
  actor = request.comment_author;
  raw_args = args;
  needs_assignment_request = needs_assignment id;
}

module _ (bot_mention commands_help : String) (request : Request) where
  abbrev pub decide : Option Classified → ActorClass → CommentCommandDecision
  decide = decide_comment_command bot_mention commands_help request

  -- The text of a command, from a human and with arguments that the command takes, is decided as that
  -- command, for the author of the comment and with its arguments.
  decide-value :
      (id : OrdinaryCommandId) (args : List String)
      → TakesArguments id args
      → decide (some (record { command = some (value id); args = args })) repo_user_principal
        ≡ execute_ordinary_command (ordinary request id args)
  unfolding decide_comment_command
  decide-value pass args h = refl
  decide-value away [] h = absurd (h refl)
  decide-value away (a ∷ args) h = refl
  decide-value feedback [] h = refl
  decide-value feedback (a ∷ args) h = cc
  decide-value _ args h = refl

  -- A decision is sound for a command text and its arguments: what it executes is that command.
  data IsSound (command : String) (args : List String) : CommentCommandDecision → Type 0 where
    executes :
        (id : OrdinaryCommandId)
        → TakesArguments id args
        → command ≡ value id
        → IsSound command args (execute_ordinary_command (ordinary request id args))
    refuses : {r : InlineResponse} → IsSound command args (inline_response r)
    defers : IsSound command args defer_privileged_handoff
    ignores : IsSound command args ignore

  IsSound-test :
      {command : String} {args : List String} (t : String) {a b : CommentCommandDecision}
      → (command ≡ t → IsSound command args a)
      → IsSound command args b
      → IsSound command args (if command == t then a else b)
  IsSound-test {command} {args} t {a} {b} on_equal otherwise = elim (Bool-cases (command == t)) [
    | inl same ↦
        subst (λ c. IsSound command args (if c then a else b)) (sym same)
          (on_equal ((eq_iff command t).0 same))
    | inr other ↦ subst (λ c. IsSound command args (if c then a else b)) (sym other) otherwise
  ]

  later_commands-IsSound :
      (command : String) (args : List String)
      → IsSound command args (later_commands bot_mention commands_help request command args)
  unfolding later_commands
  later_commands-IsSound command args =
      IsSound-test _ (λ _. refuses)
        (IsSound-test _ (executes done tt) (
          IsSound-test _ (executes label tt) (
            IsSound-test _ (executes sync_members tt) (
              IsSound-test _ (executes queue tt) (
                IsSound-test _ (executes commands tt) (
                  IsSound-test _ (executes claim tt) (
                    IsSound-test _ (executes release tt) (
                      IsSound-test _ (executes rectify tt) (
                        IsSound-test _ (executes assign_specific tt) (
                          IsSound-test _ (executes assign_from_queue tt) (
                            IsSound-test _ (λ _. refuses)
                              (IsSound-test _ (λ _. refuses)
                                (IsSound-test _ (λ _. refuses) refuses)))))))))))))

  decide_command-IsSound :
      (command : String) (args : List String)
      → IsSound command args (decide_command bot_mention commands_help request command args)
  unfolding decide_command
  decide_command-IsSound command [] =
      IsSound-test _ (λ _. defers)
        (IsSound-test _ (λ _. refuses)
          (IsSound-test _ (executes pass tt) (
            IsSound-test _ (λ _. refuses)
              (IsSound-test _ (executes feedback refl) (later_commands-IsSound command [])))))
  decide_command-IsSound command (a ∷ args) =
      IsSound-test _ (λ _. defers)
        (IsSound-test _ (λ _. refuses)
          (IsSound-test _ (executes pass tt) (
            IsSound-test _ (executes away (λ e. absurd cc))
              (IsSound-test _ (λ _. refuses) (later_commands-IsSound command (a ∷ args))))))

  IsSound-execute :
      {command : String} {args : List String} {c : OrdinaryCommand}
      → IsSound command args (execute_ordinary_command c)
      → (command ≡ value c.command_id)
        × (c ≡ ordinary request c.command_id args)
        × TakesArguments c.command_id args
  IsSound-execute (executes id takes same) = (same, refl, takes)

  -- What is executed is a command of a human whose text is the command's own, for the author of
  -- the comment, with the arguments of the comment, and only with arguments that it takes.
  pub decide_sound :
      (command : Option String) (args : List String) (actor : ActorClass) (c : OrdinaryCommand)
      → decide (some (record { command = command; args = args })) actor ≡ execute_ordinary_command c
      → (actor ≡ repo_user_principal)
        × (command ≡ some (value c.command_id))
        × (c ≡ ordinary request c.command_id args)
        × TakesArguments c.command_id args
  unfolding decide_comment_command
  decide_sound none args actor c h = absurd cc
  decide_sound (some command) args repo_user_principal c h =
      let found =
        IsSound-execute (subst (IsSound command args) h (decide_command-IsSound command args)) in
      (refl, ap some (found.0), found.1, found.2)
  decide_sound (some command) args _ c h = absurd cc
