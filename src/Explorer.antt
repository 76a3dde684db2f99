-- ===== src/Explorer.antt =====
-- static/rest_framework/docs/js/api.js: the page that documents an API and tries its requests out.
-- `Forms` is what a form sends, `Answers` what is shown of a request and its response, and
-- `Controls` the choices of the page: the authentication, the language, and data or raw text.
pub mod Forms
pub mod Answers
pub mod Controls
pub mod Named
pub mod Params
pub mod Signed
pub mod Views
pub mod Examples
