-- ===== src/Commands.antt =====
-- The command decisions for a routed comment: scripts/reviewer_bot_core/comment_command_policy.py.
-- The bot's mention and the list of commands for help are texts that the caller gives.
pub mod Authorization
pub mod Decisions
pub mod Rights
use Prim.Native.Char.{char}
use Prim.Native.String.{◌∷◌ as char_then}
use safety_critical_rust_cod.Common.{
  ℕ, String, append_text, Bool, true, false, not, ◌&&◌, ◌||◌, Option, none, some, List, [], ◌∷◌,
  ◌==◌, if◌then◌else◌, is_in,
}
use safety_critical_rust_cod.Routing.{
  ActorClass, bot_account, github_app_or_other_automation, repo_user_principal, unknown_actor,
}

pub data OrdinaryCommandId : Type 0 where
  pass away feedback done label sync_members queue commands claim release rectify :
      OrdinaryCommandId
  assign_specific assign_from_queue : OrdinaryCommandId

-- The text of each command.
abbrev pub value : OrdinaryCommandId → String
value pass = "pass"
value away = "away"
value feedback = "feedback"
value done = "done"
value label = "label"
value sync_members = "sync-members"
value queue = "queue"
value commands = "commands"
value claim = "claim"
value release = "release"
value rectify = "rectify"
value assign_specific = "r?-user"
value assign_from_queue = "assign-from-queue"

-- `PrivilegedCommandId.ACCEPT_NO_FLS_CHANGES.value`
abbrev pub accept_no_fls_changes : String
accept_no_fls_changes = "accept-no-fls-changes"

pub record InlineResponse : Type 0 where
  pub response : String
  pub success : Bool
  pub react : Bool

pub record OrdinaryCommand : Type 0 where
  pub command_id : OrdinaryCommandId
  pub issue_number : ℕ
  pub actor : String
  pub raw_args : List String
  pub needs_assignment_request : Bool

pub data CommentCommandDecision : Type 0 where
  ignore : CommentCommandDecision
  inline_response : InlineResponse → CommentCommandDecision
  defer_privileged_handoff : CommentCommandDecision
  execute_ordinary_command : OrdinaryCommand → CommentCommandDecision

-- The fields of the request that the decision reads.
pub record Request : Type 0 where
  pub issue_number : ℕ
  pub comment_author : String

-- The classified comment: its command, if that is a text, and its arguments.
pub record Classified : Type 0 where
  pub command : Option String
  pub args : List String

-- The warning sign in its emoji form: U+26A0, U+FE0F.
abbrev pub warning_sign : String
warning_sign = char_then (char 9888 tt) (char_then (char 65039 tt) "")

abbrev pub is_human : ActorClass → Bool
is_human repo_user_principal = true
is_human _ = false

module _ (bot_mention commands_help : String) (request : Request) where
  abbrev execute : OrdinaryCommandId → List String → Bool → CommentCommandDecision
  execute id args needs = execute_ordinary_command (record {
    command_id = id;
    issue_number = request.issue_number;
    actor = request.comment_author;
    raw_args = args;
    needs_assignment_request = needs;
  })

  abbrev refuse : Bool → String → CommentCommandDecision
  refuse react response =
      inline_response (record { response = response; success = false; react = react })

  mention : String → String → String
  mention before after = append_text before (append_text bot_mention after)

  no_arguments : CommentCommandDecision
  no_arguments =
      refuse true (mention "❌ `/feedback` does not accept arguments. Usage: `" " /feedback`")

  first_or : String → List String → String
  first_or other [] = other
  first_or other (a ∷ args) = a

  -- The tests from `_malformed_feedback_args` on, for the commands that always execute.
  later_commands : String → List String → CommentCommandDecision
  unfolding mention no_arguments first_or
  later_commands command args =
      if command == "_malformed_feedback_args"
      then no_arguments
      else if command == value done
      then execute done args true
      else if command == value label
      then execute label args true
      else if command == value sync_members
      then execute sync_members args false
      else if command == value queue
      then execute queue args false
      else if command == value commands
      then execute commands args false
      else if command == value claim
      then execute claim args true
      else if command == value release
      then execute release args true
      else if command == value rectify
      then execute rectify args false
      else if command == value assign_specific
      then execute assign_specific args true
      else if command == value assign_from_queue
      then execute assign_from_queue args true
      else if command == "r?"
      then refuse true (
          append_text
            (mention "❌ Missing target. Usage:\n- `"
              " /r? @username` - Assign a specific reviewer\n")
            (mention "- `" " /r? producers` - Assign next reviewer from queue"))
      else if command == "_malformed_known"
      then refuse true (
          mention (append_text warning_sign " Did you mean `") (
            append_text " /"
              (append_text (first_or "command" args) "`?\n\nCommands require a `/` prefix.")))
      else if command == "_malformed_unknown"
      then refuse true (
          append_text (append_text warning_sign " Unknown command `") (
            append_text (first_or "" args) (
              mention "`. Commands require a `/` prefix.\n\nTry `"
                " /commands` to see available commands.")))
      else refuse true (
          append_text "❌ Unknown command: `/"
            (append_text command (append_text "`\n\nAvailable commands:\n" commands_help)))

  decide_command : String → List String → CommentCommandDecision
  unfolding later_commands
  decide_command command args =
      if command == accept_no_fls_changes
      then defer_privileged_handoff
      else if command == "_multiple_commands"
      then refuse false (
          mention
            (append_text warning_sign
              " Multiple bot commands in one comment are ignored. Please post a single command per comment. For a list of commands, use `")
            " /commands`.")
      else if command == value pass
      then execute pass args true
      else if command == value away
      then elim args [
        | [] ↦ refuse true (mention "❌ Missing date. Usage: `" " /away YYYY-MM-DD [reason]`")
        | given ↦ execute away given true
      ]
      else if command == value feedback
      then elim args [ [] ↦ execute feedback [] false | _ ↦ no_arguments ]
      else later_commands command args

  unfoldable pub decide_comment_command : Option Classified → ActorClass → CommentCommandDecision
  unfolding decide_command
  decide_comment_command none actor_class = ignore
  decide_comment_command (some classified) actor_class = elim classified.command [
    | none ↦ ignore
    | some command ↦ if is_human actor_class then decide_command command classified.args else ignore
  ]
