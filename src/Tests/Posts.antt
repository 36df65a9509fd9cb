-- ===== src/Tests/Posts.antt =====
-- A reply by its tool, and a file between fences.
use mcp_symposium.Prelude.{String, false, ◌≡◌, refl, none, some, List, [], ◌∷◌, any, trim_space}
use mcp_symposium.Models.{Actor, agent, Reply}
use mcp_symposium.Encoding.{bytes_of, hex}
use mcp_symposium.Engine.{ok, ◌>>=◌, new_uuid, transaction, now}
use mcp_symposium.Engine.Tables.{first_where, create, create_or_ignore, upsert}
use mcp_symposium.Storage.Mention.{create_mentions}
use mcp_symposium.Storage.Mention.Scan.{strip_code_regions, mention_names}
use mcp_symposium.BoardSecret.Seen.{split_lines}
use mcp_symposium.Storage.Thread.{add_reply, or_no_thread}
use mcp_symposium.Tools.SecretGuard.{check_body_for_secrets}
use mcp_symposium.Tools.CodeBlocks.{block_of, blocks_from, blocks_of_lines, extract_code_blocks}
use mcp_symposium.Tools.CodeBlocks.File.{file_of, is_no_content, fenced, extract_code_blocks-fenced}
use mcp_symposium.Tools.Posts.{ReplyInput, ReplyOutput, Scanner, reply_handler}
use mcp_symposium.Tools.Posts.Wakes.{is_in, is_addressed, reply_handler-wakes}
use mcp_symposium.Tests.World.{calm, calm-Works}
use mcp_symposium.Tests.Reply.{talk}

-- a sum that is the text itself, and no pattern
abbrev scanner : Scanner
scanner = record { find_string = λ re s. none; sum = λ bs. bs }

abbrev carol : Actor
carol = record {
  id = "carol";
  display_name = "carol";
  kind = agent;
  created_at = 1;
  tool_allowlist = "";
}

abbrev answer : ReplyInput
answer = record { thread_id = "t1"; body = "hi"; watchers = [] }

abbrev posted : Reply
posted = record { id = "#"; thread_id = "t1"; body = "hi"; author_id = "carol"; created_at = 103 }

reply_added : add_reply calm "t1" "carol" "hi" [] talk ≡ (
  ok (posted, record { resolved = []; unresolved = [] }),
  (add_reply calm "t1" "carol" "hi" [] talk).1,
)
unfolding add_reply ◌>>=◌ new_uuid transaction trim_space now first_where or_no_thread create
    create_or_ignore upsert create_mentions strip_code_regions mention_names
reply_added = refl

content : any is_no_content ("a = 1" ∷ "" ∷ []) ≡ false
unfolding trim_space
content = refl

extract_code_blocks-fenced_example :
    extract_code_blocks (λ bs. bs) (fenced " toml" ("a = 1" ∷ "" ∷ []) "end")
    ≡ block_of (λ bs. bs) 0 (trim_space " toml") (file_of ("a = 1" ∷ "" ∷ []))
      ∷ blocks_of_lines (λ bs. bs) 1 (split_lines "end")
extract_code_blocks-fenced_example =
    extract_code_blocks-fenced (λ bs. bs) " toml" "a = 1" ("" ∷ []) "end" refl content

-- a block without a line is described as if it held an empty one
empty_block :
    extract_code_blocks (λ bs. bs) "```\n```"
    ≡ record { index = 0; lang = ""; bytes = 1; sha256 = "0a" } ∷ []
unfolding extract_code_blocks blocks_from trim_space hex bytes_of
empty_block = refl

guard_passes : check_body_for_secrets scanner.find_string answer.body ≡ none
unfolding check_body_for_secrets
guard_passes = refl

reply_handler-wakes_example :
    (out : ReplyOutput) × (ids : List String) × ((reply_handler calm scanner
        (some carol)
        answer
        talk).0
      ≡ ok (out, ids))
    × (out.reply_id ≡ "#")
    × (out.mentions ≡ record { resolved = []; unresolved = [] })
    × ((id : String)
        → is_in id ids
          ≡ is_addressed "t1" "#" "carol" id (add_reply calm "t1" "carol" "hi" [] talk).1.db)
reply_handler-wakes_example =
    reply_handler-wakes calm scanner calm-Works carol answer talk
      (add_reply calm "t1" "carol" "hi" [] talk).1 posted
      (record { resolved = []; unresolved = [] }) guard_passes reply_added
