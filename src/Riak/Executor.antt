-- ===== src/Riak/Executor.antt =====
-- internal/riak/executor.go: riak-admin commands and their replies.
mod Admin
pub mod Members
pub mod Permissions
pub mod Replies
unfoldable pub use Admin.{
  riak_admin_args, riak_admin_failed, node_not_responding, subcommand, compact_output,
  execute_riak_admin,
}
pub use Members.{ClusterMember}
unfoldable pub use Members.{
  is_member_state, parse_member, parse_member_status, member_status, parse_transfers_idle,
  transfers_idle, get_cluster_members,
}
pub use Permissions.{GrantEntry}
unfoldable pub use Permissions.{
  riak_kv_permissions, add_tokens, tokens_from, permission_tokens, quoted, grant_target,
  trimmed_tokens, add_row, grants_from, parse_dedicated_grants,
}
