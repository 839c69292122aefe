-- ===== src/Webhook/Tests.antt =====
-- Two schemes of one transport.
use prm.Prelude.{ℕ, none, string_eq}
use prm.Webhook.Transport.{UrlReader}

abbrev reader : UrlReader
reader = record { parse = λ raw. none; to_lower = λ s. s; trim_slash = λ s. s }

abbrev web : ℕ
web = 3
