-- ===== src/Script.antt =====
-- The expression language of the client, web/hydrui-client/src/utils/script.
pub mod Token
pub mod Scanner
pub mod Ast
pub mod Json
pub mod Parser
pub mod Resolver
pub mod Suggest
mod ParserTests
mod ResolverTests
mod Tests
