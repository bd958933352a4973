-- ===== src/Leads/Inbox/Pairs.antt =====
-- One attachment described twice (app/modules/leads/ingest.py, _store): by the webhook with its media or
-- link, by the poll as a blank. Whichever is first, one row comes of it.
use stepan.Prelude.{
  length, ◌==◌, str_eq, str_eq_iff, Bool-cases, is_none, is_some, is_blank, ℕ, String, ◌≡◌, refl,
  inl, inr, Bool, true, false, not, ◌&&◌, ◌||◌, Option, none, some, List, [], ◌∷◌, ◌++◌, arith,
}
use stepan.Domain.Lead.{Time, Lead}
use stepan.Domain.Message.{MessageRow}
use stepan.Domain.Thread.{ChannelThread}
use stepan.Leads.Inbox.{
  MediaAsset, Inbound, Inbox, Given, dedup_window, is_near, any_message, find_message, has_media,
  is_attachment, is_spaces, is_blank_row, is_contentless, put_message, media_stub,
}
use stepan.Leads.Inbox.Incoming.{
  filled_row, fill_in_blank, is_referral, message_in, stored, or_filled, store_incoming,
}
use stepan.Leads.Inbox.Once.{length-put_message, any_message-last}
use stepan.Prelude.Texts.{codes}

-- The row of the webhook's description has an attachment.
abbrev pub IsRich : Inbound → Type 0
IsRich i = (is_blank i.media_url && is_none i.link_url) ≡ false

-- The poll's description: nothing at all.
pub record IsBlank (b : Inbound) : Type 0 where
  pub no_content : is_contentless b ≡ true
  pub no_text : is_spaces (codes b.text) ≡ true
  pub no_link : b.link_url ≡ none

some_of : (o : Option String) → is_none o ≡ false → is_some o ≡ true
some_of none h = absurd (cc h)
some_of (some x) h = refl

none_of : (o : Option String) → is_none o ≡ true → o ≡ none
none_of none h = refl
none_of (some x) h = absurd (cc h)

has_media-last :
    (branch_id message_id : ℕ) (media : List MediaAsset) (a : MediaAsset)
    → ((a.branch_id == branch_id) && (a.message_id == message_id)) ≡ true
    → has_media branch_id message_id (media ++ (a ∷ [])) ≡ true
unfolding has_media
has_media-last branch_id message_id [] a h = ground (arith, h)
has_media-last branch_id message_id (x ∷ xs) a h =
    ground (arith, has_media-last branch_id message_id xs a h)

has_media-stub :
    (g : Given) (message_id : ℕ) (media : List MediaAsset) (i : Inbound)
    → is_blank i.media_url ≡ false
    → has_media g.branch_id message_id (media ++ media_stub g message_id i) ≡ true
has_media-stub g message_id media i h =
    rw h (has_media-last g.branch_id message_id media _ (ground arith))

stored-IsAttachment :
    (g : Given) (external_id : String) (i : Inbound) (thread_id id : ℕ) (is_ad_referral : Bool)
    (media : List MediaAsset) (at : Time)
    → IsRich i
    → is_near at dedup_window i.occurred_at ≡ true
    → is_attachment g.branch_id thread_id
        (media ++ media_stub g id i)
        at
        (message_in g external_id i thread_id id is_ad_referral)
      ≡ true
unfolding is_attachment
stored-IsAttachment g external_id i thread_id id is_ad_referral media at rich near =
    elim (Bool-cases (is_blank i.media_url)) [
      | inr has ↦ let held = has_media-stub g id media i has in ground (arith, held, near)
      | inl bare ↦
          let linked : is_none i.link_url ≡ false = rw bare at rich in
          let with_link : is_some i.link_url ≡ true = some_of i.link_url linked in
          ground (arith, with_link, near)
    ]

has_media-nil :
    (branch_id message_id : ℕ) (media : List MediaAsset)
    → has_media branch_id message_id (media ++ []) ≡ has_media branch_id message_id media
unfolding has_media
has_media-nil branch_id message_id [] = refl
has_media-nil branch_id message_id (x ∷ xs) = ground (arith, has_media-nil branch_id message_id xs)

find_message-some :
    (p : MessageRow → Bool) (ms : List MessageRow)
    → any_message p ms ≡ true
    → (row : MessageRow) × (find_message p ms ≡ some row)
unfolding any_message find_message
find_message-some p [] h = absurd (cc h)
find_message-some p (m ∷ ms) h = elim (Bool-cases (p m)) [
  | inl hit ↦ (m, rw hit refl)
  | inr miss ↦ let (row, e) = find_message-some p ms (rw miss at h) in (row, rw miss e)
]

-- The row that was found gives its place to one with the same id.
put_message-any :
    (p q : MessageRow → Bool) (row new_row : MessageRow) (ms : List MessageRow)
    → find_message p ms ≡ some row
    → new_row.id ≡ row.id
    → q new_row ≡ true
    → any_message q (put_message new_row ms) ≡ true
unfolding any_message find_message put_message
put_message-any p q row new_row [] e i h = absurd (cc e)
put_message-any p q row new_row (m ∷ ms) e i h = elim (Bool-cases (p m)) [
  | inl hit ↦ let same_row : some m ≡ some row = rw hit at e in ground (arith, same_row, i, h)
  | inr miss ↦
      let rest = put_message-any p q row new_row ms (rw miss at e) i h in ground (arith, rest)
]

contentless-no_media : (b : Inbound) → is_contentless b ≡ true → b.media_url ≡ none
unfolding is_contentless
contentless-no_media b h = none_of b.media_url (ground (arith, h))

stored-IsBlankRow :
    (g : Given) (external_id : String) (b : Inbound) (thread_id id : ℕ) (is_ad_referral : Bool)
    (media : List MediaAsset) (at : Time)
    → IsBlank b
    → has_media g.branch_id id media ≡ false
    → is_near at dedup_window b.occurred_at ≡ true
    → is_blank_row g.branch_id thread_id
        (media ++ media_stub g id b)
        at
        (message_in g external_id b thread_id id is_ad_referral)
      ≡ true
unfolding is_blank_row
stored-IsBlankRow g external_id b thread_id id is_ad_referral media at blank fresh near =
    let no_media = contentless-no_media b blank.no_content in
    let unheld = has_media-nil g.branch_id id media in
    let spaces = blank.no_text in
    let unlinked = blank.no_link in
    rw no_media (ground (arith, unheld, fresh, near, spaces, unlinked))

-- Some row carries the text of the description under its key.
abbrev pub carries : String → Inbound → MessageRow → Bool
carries external_id i m = str_eq m.external_id external_id && str_eq m.text i.text

carries-own :
    (external_id : String) (i : Inbound) (m : MessageRow)
    → m.external_id ≡ external_id
    → m.text ≡ i.text
    → carries external_id i m ≡ true
carries-own external_id i m e f =
    let a = (str_eq_iff m.external_id external_id).1 e in
    let b = (str_eq_iff m.text i.text).1 f in ground (arith, a, b)

module _ (g : Given) (s : Inbox) (lead lead' : Lead) (thread thread' : ChannelThread)
    (one_thread : thread'.id ≡ thread.id) (external_id external_id' : String) where
  -- The webhook's copy is stored; the poll's copy within two seconds adds nothing.
  pub rich_then_blank :
      (rich blank : Inbound)
      → IsRich rich
      → is_contentless blank ≡ true
      → is_near blank.occurred_at dedup_window rich.occurred_at ≡ true
      → let s' = (stored g external_id rich lead thread s).0 in
        store_incoming g external_id' blank lead' thread' s' ≡ (s', none)
  unfolding stored store_incoming
  rich_then_blank rich blank has no_content near =
      let is_ad_referral = is_referral g thread.id rich s.messages in
      let media = s.media ++ media_stub g s.next_message_id rich in
      let found =
        any_message-last (is_attachment g.branch_id thread.id media blank.occurred_at)
          (message_in g external_id rich thread.id s.next_message_id is_ad_referral) s.messages
          (stored-IsAttachment g external_id rich thread.id s.next_message_id is_ad_referral s.media
            blank.occurred_at has near) in
      rw (no_content, one_thread, found) refl

  -- The poll's copy is stored under an id that no attachment has; the webhook's copy within two seconds
  -- makes no row more, and a row carries its text under its key.
  pub blank_then_rich :
      (blank rich : Inbound)
      → IsBlank blank
      → has_media g.branch_id s.next_message_id s.media ≡ false
      → is_contentless rich ≡ false
      → (is_blank rich.media_url && is_blank rich.link_url) ≡ false
      → is_near rich.occurred_at dedup_window blank.occurred_at ≡ true
      → let s' = (stored g external_id blank lead thread s).0 in
        let (s'', row) = store_incoming g external_id' rich lead' thread' s' in
        (row ≡ none)
        × (length s''.messages ≡ length s'.messages)
        × (any_message (carries external_id' rich) s''.messages ≡ true)
  unfolding stored store_incoming or_filled fill_in_blank
  blank_then_rich blank rich is_void fresh full attached near =
      let is_ad_referral = is_referral g thread.id blank s.messages in
      let media = s.media ++ media_stub g s.next_message_id blank in
      let m = message_in g external_id blank thread.id s.next_message_id is_ad_referral in
      let test = is_blank_row g.branch_id thread.id media rich.occurred_at in
      let any = any_message-last test m s.messages (
        stored-IsBlankRow g external_id blank thread.id s.next_message_id is_ad_referral s.media
          rich.occurred_at is_void fresh near) in
      let (row, e) = find_message-some test (s.messages ++ (m ∷ [])) any in
      let is_attached : (not (is_blank rich.media_url) || not (is_blank rich.link_url)) ≡ true =
        ground (arith, attached) in
      rw (full, is_attached, one_thread, e)
        (
          refl,
          length-put_message (filled_row external_id' rich row) (s.messages ++ (m ∷ [])),
          put_message-any test (carries external_id' rich) row (filled_row external_id' rich row)
              (s.messages ++ (m ∷ [])) e refl
              (carries-own external_id' rich (filled_row external_id' rich row) refl refl),
        )
