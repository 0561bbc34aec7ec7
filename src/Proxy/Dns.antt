-- ===== src/Proxy/Dns.antt =====
-- What the proxy uses of github.com/miekg/dns, as an interface: the messages and the calls that
-- read and build them.
use citadel_dnxproxy.Prelude.{ℕ, ◌≡◌, List, Option}
use citadel_dnxproxy.Text.{Text}

-- dns.Question
pub record Question : Type 0 where
  pub name : Text
  pub qtype : ℕ
  pub qclass : ℕ

-- The data of an answer that the proxy builds: an address of net.ParseIP (`none` where it parses none).
pub record Address : Type 0 where
  pub owner : Text
  pub rrtype : ℕ
  pub ttl : ℕ
  pub ip : Option Text

pub record Dns : Type 1 where
  pub Msg : Type 0
  pub id : Msg → ℕ
  -- `m.Id = id`
  pub set_id : Msg → ℕ → Msg
  -- `m.Question[0]`, which every message that the server hands over has
  pub question : Msg → Question
  pub set_question_name : Msg → Text → Msg
  -- `a.Header().Ttl` for the answers
  pub answer_ttls : Msg → List ℕ
  -- the owner names of the answers, mapped
  pub map_answer_names : (Text → Text) → Msg → Msg
  pub copy : Msg → Msg
  -- `new(dns.Msg).SetReply(m)`
  pub set_reply : Msg → Msg
  -- `new(dns.Msg).SetRcode(m, rcode)`
  pub set_rcode : Msg → ℕ → Msg
  -- `m.Answer = append(m.Answer, a)`
  pub add_answer : Msg → Address → Msg
  -- A copy is the same message.
  pub copy_same : (m : Msg) → copy m ≡ m
