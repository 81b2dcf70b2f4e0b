-- ===== src/Tests/Merging.antt =====
-- The clients' merges.
use mqtt_chat.Base.{
  max, map, if◌then◌else◌, ◌+◌, string_discrete, ◌&&◌, List, [], ◌∷◌, count, ◌==◌, string_eq, ◌≡◌,
  refl,
}
use mqtt_chat.Store.Rows.{Message}
use mqtt_chat.Store.Order.{IsSorted}
use mqtt_chat.Client.Snapshot.{is_new, merge_message_snapshot, snapshot_merges}
use mqtt_chat.Contracts.Events.{MemberSummary, MemberRole}
use mqtt_chat.Client.Watermark.{receive, watermark_merges}
use mqtt_chat.Tests.Fixtures.{hello}

abbrev later : Message
later = record hello { id = "m2"; client_message_id = "k2"; sequence = 2; content = "later" }

-- The live copy has been edited since the page was read.
abbrev page : List Message
page = hello ∷ []

abbrev live : List Message
live = later ∷ record hello { content = "edited" } ∷ []

snapshot_merges_example :
    IsSorted (λ m. m.sequence) (merge_message_snapshot page live)
    × (count (λ m. m.content == "edited") (merge_message_snapshot page live)
        ≡ count (λ m. m.content == "edited") live
          + count (λ m. m.content == "edited" && is_new live m) page)
unfolding string_discrete
snapshot_merges_example =
    snapshot_merges page live (λ m. m.content == "edited") (refl, tt) (refl, (refl, tt))

abbrev marks : List MemberSummary
marks =
    record { user_id = "alice"; role = MemberRole.admin; last_read_sequence = 1 }
    ∷ record { user_id = "bob"; role = MemberRole.member; last_read_sequence = 4 }
    ∷ []

watermark_merges_example :
    (receive marks ("alice", 3)
      ≡ map
          (λ (m : MemberSummary).
            if m.user_id == "alice"
            then record m { last_read_sequence = max m.last_read_sequence 3 }
            else m)
          marks)
    × (receive (receive marks ("alice", 3)) ("bob", 2)
        ≡ receive (receive marks ("bob", 2)) ("alice", 3))
    × (receive (receive marks ("alice", 3)) ("alice", 3) ≡ receive marks ("alice", 3))
watermark_merges_example = watermark_merges marks "alice" "bob" 3 2
