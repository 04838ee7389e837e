-- ===== src/Transfer/Decisions.antt =====
-- network/file_transfer.go: the decisions on file requests that are remembered for a while. Times of
-- the clock are nanoseconds.
use go_send.Base.{
  ℕ, ◌+◌, ◌*◌, Bool, Option, none, some, Text, if◌then◌else◌, is_empty, ltb, ◌==◌, trim_space,
}
use go_send.Base.Dict.{lookup, insert, delete}
use go_send.Messaging.Session.{unix_milli}
use go_send.Transfer.Node.{RecentFileDecision, FileNode}

-- 30 seconds, 5 minutes, and the default of FileResponseTimeout.
abbrev pub min_recent_file_decision_ttl : ℕ
min_recent_file_decision_ttl = 30 * 1_000_000_000

abbrev pub max_recent_file_decision_ttl : ℕ
max_recent_file_decision_ttl = 300 * 1_000_000_000

abbrev pub default_file_response_timeout : ℕ
default_file_response_timeout = 10 * 1_000_000_000

-- recentFileDecisionTTL.
unfoldable pub recent_file_decision_ttl : FileNode → ℕ
recent_file_decision_ttl node =
    let timeout =
      if node.file_response_timeout == 0
      then default_file_response_timeout
      else node.file_response_timeout in
    let ttl = timeout * 3 in
    if ltb ttl min_recent_file_decision_ttl
    then min_recent_file_decision_ttl
    else if ltb max_recent_file_decision_ttl ttl
    then max_recent_file_decision_ttl
    else ttl

-- rememberFileDecision with a positive time to live.
unfoldable pub remember_file_decision : ℕ → Text → Bool → ℕ → FileNode → FileNode
remember_file_decision now file_id accepted ttl node =
    let id = trim_space file_id in
    if is_empty id then node else record node {
      recent_decisions =
          insert id
            (record { accepted = accepted; decided_at = unix_milli now; expires_at = now + ttl })
            node.recent_decisions;
    }

-- clearRecentFileDecision.
unfoldable pub clear_recent_file_decision : Text → FileNode → FileNode
clear_recent_file_decision file_id node =
    let id = trim_space file_id in
    if is_empty id then node else record node { recent_decisions = delete id node.recent_decisions }

-- recentFileDecision: one that has expired is deleted.
unfoldable pub recent_file_decision : ℕ → Text → FileNode → FileNode × Option RecentFileDecision
recent_file_decision now file_id node =
    let id = trim_space file_id in
    if is_empty id then (node, none) else elim (lookup id node.recent_decisions) [
      | none ↦ (node, none)
      | some d ↦
          if ltb d.expires_at now
          then (record node { recent_decisions = delete id node.recent_decisions }, none)
          else (node, some d)
    ]
